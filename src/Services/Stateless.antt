-- ===== src/Services/Stateless.antt =====
-- The service that the clients see: a request has one answer, whatever was asked before. Contexts that
-- differ in what the requests of the interfaces hold only are one in it.
use mathlib.Core.Quot
use mathlib.Core.Quot.{Quot, Quot-set}
use onvif_srvd_cmake.Prelude.{List, [], ◌∷◌, ◌≡◌, refl, sym, ap, ◌∙◌, map}
use onvif_srvd_cmake.Kernel.{Kernel}
use onvif_srvd_cmake.Context.{ServiceContext}
use onvif_srvd_cmake.Soap.{SoapStatus, Effect}
use onvif_srvd_cmake.Ptz.{Floats}
use onvif_srvd_cmake.Services.{Request, Response, Surroundings, handle, session}
use onvif_srvd_cmake.Services.Erasure.{erase}
use onvif_srvd_cmake.Services.History.{seen, session-erase, handle-erase}

abbrev pub SameSettings : ServiceContext → ServiceContext → Type 0
SameSettings c d = erase c ≡ erase d

abbrev pub View : Type 0
View = Quot SameSettings

abbrev pub view_of : ServiceContext → View
view_of = Quot.mk

abbrev pub Seen : Type 0
Seen = SoapStatus × Response × List Effect

module _ (k : Kernel) (f : Floats) where
  pub same_answer :
      (s : Surroundings k f) (r : Request k f) (c d : ServiceContext)
      → SameSettings c d
      → seen (handle k f s c r) ≡ seen (handle k f s d r)
  same_answer s r c d same =
      (handle-erase k f s c r).0
      ∙ (ap (λ x. seen (handle k f s x r)) same ∙ sym (handle-erase k f s d r).0)

  -- The answer to a request.
  unfoldable pub reply : Surroundings k f → Request k f → View → Seen
  reply s r = Quot.lift (hlevel) (λ c. seen (handle k f s c r)) (same_answer s r)

  -- What the process sends in a session, each request served on the context that the one before it
  -- left.
  unfoldable pub replies : List (Surroundings k f × Request k f) → ServiceContext → List Seen
  replies [] c = []
  replies ((s, r) ∷ rest) c = seen (handle k f s c r) ∷ replies rest (handle k f s c r).context

  same_view :
      (s : Surroundings k f) (r : Request k f) (c : ServiceContext)
      → view_of (handle k f s c r).context ≡ view_of c
  same_view s r c = Quot.sound (handle-erase k f s c r).1

  replies-map :
      (rs : List (Surroundings k f × Request k f)) (c : ServiceContext)
      → replies rs c ≡ map (λ q. reply q.0 q.1 (view_of c)) rs
  unfolding replies reply
  replies-map [] c = refl
  replies-map ((s, r) ∷ rest) c =
      ap (λ answers. seen (handle k f s c r) ∷ answers)
        (replies-map rest (handle k f s c r).context
          ∙ ap (λ v. map (λ q. reply q.0 q.1 v) rest) (same_view s r c))

  -- The process is a stateless service: what it sends in a session is, request by request, the answer
  -- that the request has in the view of the first context, and the last context has the same view.
  pub replies-reply :
      (rs : List (Surroundings k f × Request k f)) (c : ServiceContext)
      → (replies rs c ≡ map (λ q. reply q.0 q.1 (view_of c)) rs)
        × (view_of (session k f rs c) ≡ view_of c)
  replies-reply rs c = (replies-map rs c, Quot.sound (session-erase k f rs c))
