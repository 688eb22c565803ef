-- ===== src/GSoap/Lifetime.antt =====
-- GSoapWrapper of src/GSoapService.hpp, which owns the context of gSOAP, over the life of the
-- instance: the calls of gSOAP from the constructor to the destructor, through any rounds of work.
use mathlib.Core.List.{append_assoc}
use onvif_srvd_cmake.Prelude.{
  ℤ, Option, some, none, Bool, true, not, List, [], ◌∷◌, ◌++◌, ◌≡◌, refl, ap, ◌∙◌, ◌⊎◌, inl, inr,
  any, arith, ◌&&◌, if◌then◌else◌,
}
use onvif_srvd_cmake.Context.{ServiceContext}
use onvif_srvd_cmake.GSoap.{
  Call, soap_new, soap_stream_fault, soap_begin_serve, soap_send_fault, soap_destroy, soap_end,
  soap_free, soap_bind, dispatch, throws, exits, made, gsoap_instance, Server, each_service, work,
}

-- GSoapWrapper()
abbrev pub gsoap_wrapper : List Call
gsoap_wrapper = soap_new ∷ []

-- ~GSoapWrapper, then the unique_ptr, which calls no deleter on a null pointer.
unfoldable pub gsoap_wrapper_end : Bool → List Call
gsoap_wrapper_end alive = soap_destroy ∷ soap_end ∷ (if alive then soap_free ∷ [] else [])

-- The rounds, as many as the thread makes: when it makes another one is up to the library of threads.
unfoldable pub rounds : List Server → List Call
unfolding work
rounds [] = []
rounds (s ∷ ss) = (work s).1 ++ rounds ss

-- The constructor, and where it succeeds the rounds and the destructor. Where the body of the
-- constructor throws, the member gSoap is destroyed, and exit destroys nothing.
unfoldable pub gsoap_life : Bool → (ℤ → Bool) → ServiceContext → List Server → List Call
unfolding gsoap_instance gsoap_wrapper_end rounds
gsoap_life alive bind c ss =
    gsoap_wrapper
    ++ (if alive then soap_bind c.port ∷ [] else [])
    ++ elim (gsoap_instance alive bind c) [
      | made _ ↦ rounds ss ++ gsoap_wrapper_end alive
      | throws _ ↦ gsoap_wrapper_end alive
      | exits ↦ soap_stream_fault ∷ []
    ]

-- What is known of the context: there is none, it holds nothing, it may hold objects and memory of
-- a request, or only memory.
pub data Stage : Type 0 where
  absent clean held deleted : Stage

-- The calls that a context allows. Objects are deleted before the memory under them, and the context
-- is freed when it holds nothing.
unfoldable pub next : Stage → Call → Option Stage
next absent soap_new = some clean
next absent _ = none
next _ soap_begin_serve = some held
next _ soap_send_fault = some held
next _ (dispatch _) = some held
next _ soap_destroy = some deleted
next deleted soap_end = some clean
next _ soap_end = none
next clean soap_free = some absent
next _ soap_free = none
next _ soap_new = none
next stage _ = some stage

unfoldable pub follow : Stage → List Call → Option Stage
unfolding next
follow stage [] = some stage
follow stage (c ∷ cs) = elim (next stage c) [ some after ↦ follow after cs | none ↦ none ]

-- A context is in use between two rounds.
abbrev InUse : Stage → Type 0
InUse stage = (stage ≡ clean) ⊎ (stage ≡ held)

-- A round that fails leaves what it holds.
abbrev left_by : Server → Stage
left_by s = if s.begins && not (any s.has_method (each_service s)) then held else clean

follow-work :
    (s : Server) (stage : Stage) (cs : List Call)
    → InUse stage
    → follow stage ((work s).1 ++ cs) ≡ follow (left_by s) cs
unfolding follow work
follow-work s stage cs (inl e) = rw e (ground arith)
follow-work s stage cs (inr e) = rw e (ground arith)

left_by-InUse : (s : Server) → InUse (left_by s)
left_by-InUse s = ground arith

follow-rounds :
    (ss : List Server) (stage : Stage)
    → InUse stage
    → follow stage (rounds ss ++ gsoap_wrapper_end true) ≡ some absent
unfolding follow rounds gsoap_wrapper_end
follow-rounds [] stage (inl e) = rw e refl
follow-rounds [] stage (inr e) = rw e refl
follow-rounds (s ∷ ss) stage u =
    ap (follow stage) (append_assoc (work s).1 (rounds ss) _)
    ∙ follow-work s stage _ u
    ∙ follow-rounds ss (left_by s) (left_by-InUse s)

-- Where gSOAP has a context, the calls of an instance's life, through any rounds, served or failed,
-- respect it: the context is used only between soap_new and soap_free, the objects of the requests
-- are deleted before the memory under them is given back, and nothing is held when the context is
-- freed. So too where the constructor throws. Where the port cannot be bound, the process ends with
-- a context that holds nothing of a request.
pub gsoap_life_released :
    (bind : ℤ → Bool) (c : ServiceContext) (ss : List Server)
    → follow absent (gsoap_life true bind c ss) ≡ some (if bind c.port then absent else clean)
unfolding follow gsoap_life gsoap_wrapper_end
gsoap_life_released bind c ss = ground (arith, follow-rounds ss clean (inl refl))
