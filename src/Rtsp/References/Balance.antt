-- ===== src/Rtsp/References/Balance.antt =====
-- The counts of the objects over any history of handles.
use onvif_srvd_cmake.Prelude.{
  ℕ, zero, suc, ◌+◌, ◌<◌, ◌≡◌, refl, none, some, List, [], ◌∷◌, ◌++◌, length, ltb, arith,
  Bool-cases, inl, inr, ap,
}
use onvif_srvd_cmake.Rtsp.References.{
  Counts, Handle, ref, unref, owns, copy_construct, copy_assign, move_construct, move_assign,
  destroy,
}
use onvif_srvd_cmake.Rtsp.References.Histories.{
  get, set, Store, HandleOp, default_construct, adopt, copy_of, moved_from, destroys, attaches,
  copy_to, move_to, copy_handle, move_handle, step, run, release, no_handles,
}

-- How many of the handles are a reference of the object.
abbrev pub owned : List Handle → ℕ → ℕ
owned [] q = 0
owned (h ∷ hs) q = owns h q + owned hs q

owned-append :
    (hs : List Handle) (h : Handle) (q : ℕ) → owned (hs ++ (h ∷ [])) q ≡ owned hs q + owns h q
owned-append [] h q = omega arith
owned-append (g ∷ hs) h q = omega (arith, owned-append hs h q)

owned-reset :
    (i : ℕ) (hs : List Handle) (q : ℕ) → owned (set i none hs) q + owns (get i hs) q ≡ owned hs q
unfolding get set
owned-reset i [] q = omega arith
owned-reset zero (h ∷ hs) q = omega arith
owned-reset (suc i) (h ∷ hs) q = omega (arith, owned-reset i hs q)

owned-set :
    (i : ℕ) (h : Handle) (hs : List Handle) (q : ℕ)
    → i < length hs
    → owned (set i h hs) q + owns (get i hs) q ≡ owned hs q + owns h q
unfolding get set
owned-set i h [] q b = absurd (omega arith)
owned-set zero h (g ∷ hs) q b = omega arith
owned-set (suc i) h (g ∷ hs) q b = omega (arith, owned-set i h hs q (omega arith))

length-set : (i : ℕ) (h : Handle) (hs : List Handle) → length (set i h hs) ≡ length hs
unfolding set
length-set i h [] = refl
length-set zero h (g ∷ hs) = refl
length-set (suc i) h (g ∷ hs) = omega (arith, length-set i h hs)

get-reset : (i : ℕ) (hs : List Handle) → get i (set i none hs) ≡ none
unfolding get set
get-reset i [] = refl
get-reset zero (h ∷ hs) = refl
get-reset (suc i) (h ∷ hs) = get-reset i hs

-- What is none stays none when a handle is reset.
get-reset_none : (i j : ℕ) (hs : List Handle) → get i hs ≡ none → get i (set j none hs) ≡ none
unfolding get set
get-reset_none i j [] e = refl
get-reset_none zero zero (h ∷ hs) e = refl
get-reset_none zero (suc j) (h ∷ hs) e = e
get-reset_none (suc i) zero (h ∷ hs) e = e
get-reset_none (suc i) (suc j) (h ∷ hs) e = get-reset_none i j hs e

ref-owns : (h : Handle) (c : Counts) (q : ℕ) → ref h c q ≡ c q + owns h q
unfolding ref
ref-owns none c q = omega arith
ref-owns (some p) c q = ground arith

unref-owns : (h : Handle) (c : Counts) (q n : ℕ) → c q ≡ n + owns h q → unref h c q ≡ n
unfolding unref
unref-owns none c q n e = omega arith
unref-owns (some p) c q n e = ground arith

-- Every reference belongs to a handle, to a call that keeps one, or to the `rest`.
abbrev pub Balanced : Counts → Store → Type 0
Balanced rest s = (q : ℕ) → s.counts q ≡ rest q + owned s.handles q + s.held q

-- A handle that was reset is filled.
owned-fill :
    (i : ℕ) (h : Handle) (hs : List Handle) (q : ℕ)
    → i < length hs
    → get i hs ≡ none
    → owned (set i h hs) q ≡ owned hs q + owns h q
owned-fill i h hs q within e = omega (arith, owned-set i h hs q within, ap (λ g. owns g q) e)

reset-Balanced :
    (rest : Counts) (i : ℕ) (s : Store) (q : ℕ)
    → Balanced rest s
    → unref (get i s.handles) s.counts q ≡ rest q + owned (set i none s.handles) q + s.held q
reset-Balanced rest i s q b =
    unref-owns (get i s.handles) s.counts q _ (omega (arith, b q, owned-reset i s.handles q))

copy_handle-Balanced :
    (rest : Counts) (i j : ℕ) (s : Store)
    → Balanced rest s
    → i < length s.handles
    → Balanced rest (copy_handle i j s)
unfolding copy_handle copy_assign
copy_handle-Balanced rest i j s b within q =
    let hs = set i none s.handles in
    let o = get j hs in
    omega (
      arith,
      ref-owns o (unref (get i s.handles) s.counts) q,
      reset-Balanced rest i s q b,
      owned-fill i o hs q (omega (arith, length-set i none s.handles)) (get-reset i s.handles),
    )

move_handle-Balanced :
    (rest : Counts) (i j : ℕ) (s : Store)
    → Balanced rest s
    → i < length s.handles
    → Balanced rest (move_handle i j s)
unfolding move_handle move_assign
move_handle-Balanced rest i j s b within q =
    let hs = set i none s.handles in
    omega (
      arith,
      reset-Balanced rest i s q b,
      owned-reset j hs q,
      owned-fill i (get j hs) (set j none hs) q
          (omega (arith, length-set i none s.handles, length-set j none hs))
          (get-reset_none i j hs (get-reset i s.handles)),
    )

step-Balanced :
    (rest : Counts) (o : HandleOp) (s : Store) → Balanced rest s → Balanced rest (step o s)
unfolding step copy_construct move_construct destroy
step-Balanced rest default_construct s b q = omega (arith, b q, owned-append s.handles none q)
step-Balanced rest (adopt p) s b q =
    omega (arith, b q, owned-append s.handles (some p) q, ref-owns (some p) s.counts q)
step-Balanced rest (copy_of j) s b q =
    omega (
      arith,
      b q,
      owned-append s.handles (get j s.handles) q,
      ref-owns (get j s.handles) s.counts q,
    )
step-Balanced rest (moved_from j) s b q =
    omega (
      arith,
      b q,
      owned-append (set j none s.handles) (get j s.handles) q,
      owned-reset j s.handles q,
    )
step-Balanced rest (destroys i) s b q = reset-Balanced rest i s q b
step-Balanced rest (attaches i) s b q =
    omega (arith, b q, ref-owns (get i s.handles) s.counts q, ref-owns (get i s.handles) s.held q)
step-Balanced rest (copy_to i j) s b q = elim (Bool-cases (ltb i (length s.handles))) [
  | inl e ↦ rw (e, step) (copy_handle-Balanced rest i j s b (ground (arith, e)) q)
  | inr e ↦ rw (e, step) (b q)
]
step-Balanced rest (move_to i j) s b q = elim (Bool-cases (ltb i (length s.handles))) [
  | inl e ↦ rw (e, step) (move_handle-Balanced rest i j s b (ground (arith, e)) q)
  | inr e ↦ rw (e, step) (b q)
]

run-Balanced :
    (rest : Counts) (os : List HandleOp) (s : Store) → Balanced rest s → Balanced rest (run os s)
unfolding run
run-Balanced rest [] s b = b
run-Balanced rest (o ∷ os) s b = run-Balanced rest os (step o s) (step-Balanced rest o s b)

release-owned :
    (hs : List Handle) (c : Counts) (q n : ℕ) → c q ≡ n + owned hs q → release hs c q ≡ n
unfolding release destroy
release-owned [] c q n e = omega arith
release-owned (h ∷ hs) c q n e = release-owned hs (unref h c) q n (unref-owns h c q _ (omega arith))

-- Whatever the program does with its handles, the count of an object is the number of its references
-- that the handles own, of those that calls with a reference of their own hold, and of those that
-- there were at the start, `rest`. When all handles are destroyed, the other two are left.
pub run_balanced :
    (rest : Counts) (os : List HandleOp) (q : ℕ)
    → let s = run os (no_handles rest) in
      (s.counts q ≡ rest q + owned s.handles q + s.held q)
      × (release s.handles s.counts q ≡ rest q + s.held q)
run_balanced rest os q =
    let s = run os (no_handles rest) in
    let b = run-Balanced rest os (no_handles rest) (λ p. omega arith) in
    (b q, release-owned s.handles s.counts q (rest q + s.held q) (omega (arith, b q)))
