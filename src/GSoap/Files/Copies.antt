-- ===== src/GSoap/Files/Copies.antt =====
-- The calls of copy_file, for a file that can be opened.
use mathlib.Core.List.{append_assoc}
use mathlib.Core.Path.{subst}
use onvif_srvd_cmake.Prelude.{
  ℕ, zero, suc, ◌≤◌, ◌<◌, Text, ℤ, Option, some, Bool, true, false, map, All, if◌then◌else◌, List,
  [], ◌∷◌, ◌++◌, ◌≡◌, refl, ap, ◌∙◌, ◌⊎◌, inl, inr, length, arith, Bool-cases,
}
use onvif_srvd_cmake.Prelude.Substring.{take, drop}
use onvif_srvd_cmake.GSoap.Files.{
  HttpCall, fopen, soap_response, soap_send_raw, soap_end_send, fclose, Engine, Served, before,
  before_some, copy_loop, copy_file,
}

-- Pieces of a text, put together.
abbrev pub joined : List Text → Text
joined [] = []
joined (c ∷ cs) = c ++ joined cs

take-drop : (n : ℕ) (t : Text) → take n t ++ drop n t ≡ t
unfolding take drop
take-drop zero t = refl
take-drop (suc n) [] = refl
take-drop (suc n) (b ∷ t) = ap (λ x. b ∷ x) (take-drop n t)

length-drop : (n : ℕ) (t : Text) → length (drop n t) ≤ length t
unfolding drop
length-drop zero t = omega arith
length-drop (suc n) [] = omega arith
length-drop (suc n) (b ∷ t) = omega (arith, length-drop n t)

length-take_bounds :
    (n : ℕ) (b : ℕ) (t : Text)
    → (1 ≤ length (take (suc n) (b ∷ t))) × (length (take (suc n) (b ∷ t)) ≤ suc n)
unfolding take
length-take_bounds n b t = (omega arith, omega (arith, length-take_le n t))
  where
    length-take_le : (m : ℕ) (u : Text) → length (take m u) ≤ m
    length-take_le zero u = omega arith
    length-take_le (suc m) [] = omega arith
    length-take_le (suc m) (x ∷ u) = omega (arith, length-take_le m u)

module _ (e : Engine) where
  -- soap_send_raw takes every one of the texts, one after the other.
  abbrev pub accepts : List Text → e.State → Bool
  accepts [] s = true
  accepts (c ∷ cs) s = if (e.send_raw c s).0 then false else accepts cs (e.send_raw c s).1

  -- The state of gSOAP behind them.
  abbrev pub behind : List Text → e.State → e.State
  behind [] s = s
  behind (c ∷ cs) s = behind cs (e.send_raw c s).1

  -- What fits into the buffer, and is not empty.
  abbrev pub IsChunk : Text → Type 0
  IsChunk c = (1 ≤ length c) × (length c ≤ suc e.tmpbuf)

  -- All of the file was taken, in chunks.
  pub record IsWhole (content : Text) (s : e.State) (status : ℤ) (calls : List HttpCall)
      : Type 0 where
    pub chunks : List Text
    pub sized : All IsChunk chunks
    pub all : joined chunks ≡ content
    pub accepted : accepts chunks s ≡ true
    pub called : calls ≡ map soap_send_raw chunks ++ (fclose ∷ soap_end_send ∷ [])
    pub ended : status ≡ (e.end_send (behind chunks s)).0

  -- The chunk `last` was refused, behind others that were taken and before `left`.
  pub record IsBroken (content : Text) (s : e.State) (status : ℤ) (calls : List HttpCall)
      : Type 0 where
    pub chunks : List Text
    pub last : Text
    pub left : Text
    pub sized : All IsChunk (last ∷ chunks)
    pub all : joined chunks ++ (last ++ left) ≡ content
    pub accepted : accepts chunks s ≡ true
    pub refused : (e.send_raw last (behind chunks s)).0 ≡ true
    pub called :
        calls ≡ map soap_send_raw chunks ++ (soap_send_raw last ∷ soap_end_send ∷ fclose ∷ [])
    pub ended : status ≡ e.error (e.end_send (e.send_raw last (behind chunks s)).1).1

  abbrev pub IsCopy : Text → e.State → ℤ → List HttpCall → Type 0
  IsCopy content s status calls = IsWhole content s status calls ⊎ IsBroken content s status calls

  abbrev pub Copies : Text → e.State → Option (Served e) → Type 0
  Copies content s o = (r : Served e) × (o ≡ some r) × IsCopy content s r.status r.calls

  -- One more chunk that was taken.
  chunk-IsCopy :
      (c content : Text) (s : e.State) (status : ℤ) (calls : List HttpCall)
      → IsChunk c
      → (e.send_raw c s).0 ≡ false
      → IsCopy content (e.send_raw c s).1 status calls
      → IsCopy (c ++ content) s status (soap_send_raw c ∷ calls)
  chunk-IsCopy c content s status calls fits sent (inl h) = inl (record {
    chunks = c ∷ h.chunks;
    sized = (fits, h.sized);
    all = ap (λ t. c ++ t) h.all;
    accepted = rw sent h.accepted;
    called = ap (λ cs. soap_send_raw c ∷ cs) h.called;
    ended = h.ended;
  })
  chunk-IsCopy c content s status calls fits sent (inr h) = inr (record {
    chunks = c ∷ h.chunks;
    last = h.last;
    left = h.left;
    sized = (h.sized.0, (fits, h.sized.1));
    all = append_assoc c (joined h.chunks) (h.last ++ h.left) ∙ ap (λ t. c ++ t) h.all;
    accepted = rw sent h.accepted;
    refused = h.refused;
    called = ap (λ cs. soap_send_raw c ∷ cs) h.called;
    ended = h.ended;
  })

  copy_loop-Copies :
      (fuel : ℕ) (content : Text) (s : e.State)
      → length content < fuel
      → Copies content s (copy_loop e fuel content s)
  unfolding copy_loop take drop
  copy_loop-Copies zero content s h = ground arith
  copy_loop-Copies (suc fuel) [] s h = (
    _,
    refl,
    inl (record {
      chunks = [];
      sized = tt;
      all = refl;
      accepted = refl;
      called = refl;
      ended = refl;
    }),
  )
  copy_loop-Copies (suc fuel) (b ∷ content) s h =
      let n : ℕ = suc e.tmpbuf in
      let c : Text = take n (b ∷ content) in
      let left : Text = drop n (b ∷ content) in
      elim (Bool-cases (e.send_raw c s).0) [
        | inl failed ↦
            rw (failed, copy_loop)
              (
                _,
                refl,
                inr (record {
                  chunks = [];
                  last = c;
                  left = left;
                  sized = (length-take_bounds e.tmpbuf b content, tt);
                  all = take-drop n (b ∷ content);
                  accepted = refl;
                  refused = failed;
                  called = refl;
                  ended = refl;
                }),
              )
        | inr sent ↦
            let (r, same, g) =
              copy_loop-Copies fuel left (e.send_raw c s).1
                (omega (arith, h, length-drop e.tmpbuf content)) in
            rw (sent, copy_loop)
              (
                before e (soap_send_raw c ∷ []) r,
                ap (before_some e (soap_send_raw c ∷ [])) same,
                subst (λ t. IsCopy t s r.status (soap_send_raw c ∷ r.calls))
                    (take-drop n (b ∷ content))
                    (chunk-IsCopy c left s r.status r.calls (length-take_bounds e.tmpbuf b content)
                      sent g),
              )
      ]

  -- Behind the first two calls of copy_file: the header was refused, or the file was sent.
  abbrev pub IsAnswer : Text → Text → e.State → ℤ → List HttpCall → Type 0
  IsAnswer type content s status calls =
      let (failed, s') = e.response type s in
      ((failed ≡ true)
        × (calls ≡ soap_end_send ∷ fclose ∷ [])
        × (status ≡ e.error (e.end_send s').1))
      ⊎ ((failed ≡ false) × IsCopy content s' status calls)

  -- On a file that can be opened copy_file ends, with one round more than the file has bytes, and
  -- its calls are these: it opens the file and sends the header; if gSOAP refuses that, it ends the
  -- response and closes the file, and the result is soap->error. Otherwise it sends the file in
  -- chunks of at most the buffer's size. If soap_send_raw takes them all, they are the whole file, and
  -- the file is closed and the response ended, with soap_end_send's answer as the result. With
  -- the first one that it refuses no other is sent, the response is ended and the file closed, and
  -- the result is soap->error.
  pub copy_file_total :
      (files : Text → Option Text) (fuel : ℕ) (name type content : Text) (s : e.State)
      → files name ≡ some content
      → length content < fuel
      → (r : Served e) × (copy_file e files fuel name type s ≡ some r)
        × ((calls : List HttpCall) × (r.calls ≡ fopen name ∷ soap_response type ∷ calls)
            × IsAnswer type content s r.status calls)
  unfolding copy_file
  copy_file_total files fuel name type content s found enough =
      let s' = (e.response type s).1 in
      elim (Bool-cases (e.response type s).0) [
        | inl failed ↦
            rw (found, copy_file) (rw failed (_, refl, (_, refl, inl (refl, refl, refl))))
        | inr answered ↦
            let (r, same, h) = copy_loop-Copies fuel content s' enough in
            rw (found, copy_file) (rw (answered, same) (_, refl, (_, refl, inr (refl, h))))
      ]
