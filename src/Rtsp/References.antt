-- ===== src/Rtsp/References.antt =====
-- GObjWrapper of src/rtsp-streams.hpp: a handle that owns one reference of a GObject. The heap gives
-- the number of references of each object; g_object_ref and g_object_unref count it.
pub mod Histories
pub mod Balance
pub mod ServerLife
use onvif_srvd_cmake.Prelude.{ℕ, ◌+◌, ◌-◌, ◌==◌, ◌≡◌, Option, none, some, arith, if◌then◌else◌}

-- The count of references, by the number of the object.
abbrev pub Counts : Type 0
Counts = ℕ → ℕ

-- A handle's pointer, none for nullptr.
abbrev pub Handle : Type 0
Handle = Option ℕ

unfoldable pub ref : Handle → Counts → Counts
ref none c = c
ref (some p) c = λ q. if p == q then c q + 1 else c q

unfoldable pub unref : Handle → Counts → Counts
unref none c = c
unref (some p) c = λ q. if p == q then c q - 1 else c q

-- `this` and `other` are different handles; the results are the handles that change, and the counts.
unfoldable pub copy_construct : Handle → Counts → Handle × Counts
unfolding ref
copy_construct other c = (other, ref other c)

unfoldable pub copy_assign : Handle → Handle → Counts → Handle × Counts
unfolding ref unref
copy_assign this other c = (other, ref other (unref this c))

unfoldable pub move_construct : Handle → Handle × Handle
move_construct other = (other, none)

unfoldable pub move_assign : Handle → Handle → Counts → Handle × Handle × Counts
unfolding unref
move_assign this other c = (other, none, unref this c)

unfoldable pub destroy : Handle → Counts → Counts
unfolding unref
destroy this c = unref this c

-- How often a handle is a reference of the object.
abbrev pub owns : Handle → ℕ → ℕ
owns none q = 0
owns (some p) q = if p == q then 1 else 0

-- Every operation keeps the counts in step with the handles: if the count of an object is the
-- number of its references that the two handles and `rest` others own, it is the number that is
-- owned afterwards, the handle that an operation makes included.
pub counts_balanced :
    (this other : Handle) (rest : ℕ) (c : Counts) (q : ℕ)
    → c q ≡ rest + owns this q + owns other q
    → ((copy_construct other c).1 q
        ≡ rest + owns this q + owns other q + owns (copy_construct other c).0 q)
      × ((copy_assign this other c).1 q ≡ rest + owns (copy_assign this other c).0 q + owns other q)
      × ((move_assign this other c).2 q
          ≡ rest + owns (move_assign this other c).0 q + owns (move_assign this other c).1 q)
      × (owns (move_construct other).0 q + owns (move_construct other).1 q ≡ owns other q)
      × (destroy this c q ≡ rest + owns other q)
unfolding copy_construct copy_assign move_construct move_assign destroy
counts_balanced this other rest c q h =
    (ground (arith, h), ground (arith, h), ground (arith, h), omega arith, ground (arith, h))
