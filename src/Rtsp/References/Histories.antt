-- ===== src/Rtsp/References/Histories.antt =====
-- Programs over the handles of src/rtsp-streams.hpp: any number of them, made, assigned and destroyed
-- in any order, an assignment of a handle to itself included.
use onvif_srvd_cmake.Prelude.{
  ℕ, zero, suc, none, some, List, [], ◌∷◌, ◌++◌, length, ltb, if◌then◌else◌,
}
use onvif_srvd_cmake.Rtsp.References.{
  Counts, Handle, ref, copy_construct, copy_assign, move_construct, move_assign, destroy,
}

-- The pointer of a handle by its number; none for a number that no handle has.
unfoldable pub get : ℕ → List Handle → Handle
get i [] = none
get zero (h ∷ hs) = h
get (suc i) (h ∷ hs) = get i hs

unfoldable pub set : ℕ → Handle → List Handle → List Handle
set i h [] = []
set zero h (_ ∷ hs) = h ∷ hs
set (suc i) h (g ∷ hs) = g ∷ set i h hs

-- The handles in the order in which they were made, the counts of all objects, and the references
-- that GStreamer holds because a call made them for itself.
pub record Store : Type 0 where
  pub handles : List Handle
  pub counts : Counts
  pub held : Counts

-- A handle is named by its number. `adopt` is a call that gives the program a reference, with the
-- handle that is made from the pointer; `attaches` passes the pointer of a handle to a call that
-- counts a reference of its own with g_object_ref and keeps it.
pub data HandleOp : Type 0 where
  default_construct : HandleOp
  adopt copy_of moved_from destroys attaches : ℕ → HandleOp
  copy_to move_to : ℕ → ℕ → HandleOp

abbrev pub add_handle : Handle → Counts → Store → Store
add_handle h c s = record s { handles = s.handles ++ (h ∷ []); counts = c }

-- Copy assignment to the handle `i` from `j`: the pointer of `i` is reset before that of `j` is read.
unfoldable pub copy_handle : ℕ → ℕ → Store → Store
unfolding get set copy_assign
copy_handle i j s =
    let reset = set i none s.handles in
    let (h, c) = copy_assign (get i s.handles) (get j reset) s.counts in
    record s { handles = set i h reset; counts = c }

-- Move assignment, in the same order.
unfoldable pub move_handle : ℕ → ℕ → Store → Store
unfolding get set move_assign
move_handle i j s =
    let reset = set i none s.handles in
    let (h, o, c) = move_assign (get i s.handles) (get j reset) s.counts in
    record s { handles = set i h (set j o reset); counts = c }

-- An assignment to a handle that does not exist is no step.
unfoldable pub step : HandleOp → Store → Store
unfolding get set copy_construct move_construct destroy ref copy_handle move_handle
step default_construct s = add_handle none s.counts s
step (adopt p) s = add_handle (some p) (ref (some p) s.counts) s
step (copy_of j) s = let (h, c) = copy_construct (get j s.handles) s.counts in add_handle h c s
step (moved_from j) s =
    let (h, o) = move_construct (get j s.handles) in
    add_handle h s.counts (record s { handles = set j o s.handles })
step (copy_to i j) s = if ltb i (length s.handles) then copy_handle i j s else s
step (move_to i j) s = if ltb i (length s.handles) then move_handle i j s else s
step (destroys i) s = record s {
  handles = set i none s.handles;
  counts = destroy (get i s.handles) s.counts;
}
step (attaches i) s = record s {
  counts = ref (get i s.handles) s.counts;
  held = ref (get i s.handles) s.held;
}

unfoldable pub run : List HandleOp → Store → Store
unfolding step
run [] s = s
run (o ∷ os) s = run os (step o s)

-- The destructors of all handles.
unfoldable pub release : List Handle → Counts → Counts
unfolding destroy
release [] c = c
release (h ∷ hs) c = release hs (destroy h c)

abbrev pub no_handles : Counts → Store
no_handles c = record { handles = []; counts = c; held = λ _. 0 }
