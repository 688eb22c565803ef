-- ===== src/Services/Serving.antt =====
-- The service loop over the handlers: what work of src/GSoapService.cpp and the three services do to
-- the requests that come in, round after round. What gSOAP finds in a connection is the record
-- Incoming. dispatch of a service calls the handler of the request if the method is one of that
-- service, and answers SOAP_NO_METHOD otherwise.
use onvif_srvd_cmake.Prelude.{
  ◌≡◌, refl, Option, none, some, Bool, true, false, List, [], ◌∷◌, ◌++◌, map, ap, if◌then◌else◌,
}
use onvif_srvd_cmake.Kernel.{Kernel}
use onvif_srvd_cmake.Context.{ServiceContext}
use onvif_srvd_cmake.Ptz.{Floats}
use onvif_srvd_cmake.GSoap.{
  BoundService, device_binding, media_binding, ptz_binding, Call, dispatch, Server, work,
}
use onvif_srvd_cmake.Services.{
  Request, to_device, to_media, to_ptz, Surroundings, Outcome, handle, session,
}
use onvif_srvd_cmake.Services.History.{seen}
use onvif_srvd_cmake.Services.Stateless.{Seen, view_of, reply, replies, replies-reply}

module _ (k : Kernel) (f : Floats) where
  -- A connection: whether its socket is valid, whether the request can be read, and the request, none
  -- for a method that no service has.
  pub record Incoming : Type 0 where
    pub accepts : Bool
    pub begins : Bool
    pub around : Surroundings k f
    pub request : Option (Request k f)

  -- The service whose method a request is.
  unfoldable pub is_of : BoundService → Request k f → Bool
  is_of device_binding (to_device r) = true
  is_of media_binding (to_media r) = true
  is_of ptz_binding (to_ptz r) = true
  is_of _ _ = false

  abbrev pub knows : Option (Request k f) → BoundService → Bool
  knows none s = false
  knows (some r) s = is_of s r

  abbrev pub server_of : Incoming → Server
  server_of i = record { accepts = i.accepts; begins = i.begins; has_method = knows i.request }

  -- The handler that dispatch calls.
  abbrev pub dispatched : BoundService → Incoming → ServiceContext → Option Outcome
  dispatched s i c = elim i.request [
    | none ↦ none
    | some r ↦ if is_of s r then some (handle k f i.around c r) else none
  ]

  abbrev pub then_answers :
      Option Outcome
      → ServiceContext
      → (ServiceContext → List Seen × ServiceContext)
      → List Seen × ServiceContext
  then_answers none c rest = rest c
  then_answers (some o) c rest = let (answers, c') = rest o.context in (seen o ∷ answers, c')

  -- The answers to the clients, and the context behind the calls.
  unfoldable pub run_calls : Incoming → List Call → ServiceContext → List Seen × ServiceContext
  run_calls i [] c = ([], c)
  run_calls i (dispatch s ∷ cs) c = then_answers (dispatched s i c) c (run_calls i cs)
  run_calls i (_ ∷ cs) c = run_calls i cs c

  -- The rounds that the thread makes, each with the connection that it accepts.
  unfoldable pub serve : List Incoming → ServiceContext → List Seen × ServiceContext
  unfolding run_calls work
  serve [] c = ([], c)
  serve (i ∷ is) c =
      let (answers, c1) = run_calls i (work (server_of i)).1 c in
      let (more, c2) = serve is c1 in (answers ++ more, c2)

  -- The requests of the connections that can be read and name a method, in the order of arrival.
  abbrev pub request_of :
      Option (Request k f) → Surroundings k f → List (Surroundings k f × Request k f)
  request_of none s = []
  request_of (some r) s = (s, r) ∷ []

  abbrev pub requests : List Incoming → List (Surroundings k f × Request k f)
  requests [] = []
  requests (i ∷ is) = (if i.begins then request_of i.request i.around else []) ++ requests is

  run_calls-work :
      (accepts begins : Bool) (s : Surroundings k f) (request : Option (Request k f))
      (c : ServiceContext)
      → let i : Incoming = record {
        accepts = accepts;
        begins = begins;
        around = s;
        request = request;
      } in
        run_calls i (work (server_of i)).1 c ≡ (
          replies k f (if begins then request_of request s else []) c,
          session k f (if begins then request_of request s else []) c,
        )
  unfolding run_calls work replies session is_of
  run_calls-work true true s none c = refl
  run_calls-work true true s (some (to_device r)) c = refl
  run_calls-work true true s (some (to_media r)) c = refl
  run_calls-work true true s (some (to_ptz r)) c = refl
  run_calls-work true false s request c = refl
  run_calls-work false true s none c = refl
  run_calls-work false true s (some (to_device r)) c = refl
  run_calls-work false true s (some (to_media r)) c = refl
  run_calls-work false true s (some (to_ptz r)) c = refl
  run_calls-work false false s request c = refl

  session-append :
      (xs ys : List (Surroundings k f × Request k f)) (c : ServiceContext)
      → session k f (xs ++ ys) c ≡ session k f ys (session k f xs c)
  unfolding session
  session-append [] ys c = refl
  session-append ((s, r) ∷ xs) ys c = session-append xs ys (handle k f s c r).context

  replies-append :
      (xs ys : List (Surroundings k f × Request k f)) (c : ServiceContext)
      → replies k f (xs ++ ys) c ≡ replies k f xs c ++ replies k f ys (session k f xs c)
  unfolding session replies
  replies-append [] ys c = refl
  replies-append ((s, r) ∷ xs) ys c =
      ap (λ answers. seen (handle k f s c r) ∷ answers)
        (replies-append xs ys (handle k f s c r).context)

  serve-session :
      (is : List Incoming) (c : ServiceContext)
      → serve is c ≡ (replies k f (requests is) c, session k f (requests is) c)
  unfolding serve replies session
  serve-session [] c = refl
  serve-session (i ∷ is) c =
      let now = if i.begins then request_of i.request i.around else [] in
      rw
        (
          run_calls-work i.accepts i.begins i.around i.request c,
          serve-session is (session k f now c),
          replies-append now (requests is) c,
          session-append now (requests is) c,
        )
        refl

  -- The service loop is a stateless service: whatever connections come in, it answers every request
  -- that can be read and names a method exactly once, in the order of arrival, with the answer that
  -- the request has in the view of the first context; it answers no other connection, and the last
  -- context has the same view.
  pub serve-reply :
      (is : List Incoming) (c : ServiceContext)
      → ((serve is c).0 ≡ map (λ q. reply k f q.0 q.1 (view_of c)) (requests is))
        × (view_of (serve is c).1 ≡ view_of c)
  serve-reply is c = rw (serve-session is c) (replies-reply k f (requests is) c)
