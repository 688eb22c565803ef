-- ===== src/GSoap/Files.antt =====
-- GSoapInstance::http_get and copy_file of src/GSoapService.cpp: the files that the server gives
-- out over HTTP. A FILE is what is left to read of it. gSOAP is the parameter Engine; the calls are
-- listed in their order.
pub mod Copies
pub mod Paths
use onvif_srvd_cmake.Prelude.{
  ℕ, zero, suc, Text, ℤ, pos, Option, none, some, Bool, true, false, List, [], ◌∷◌, ◌++◌, ◌==◌,
  ◌||◌, any, bytes, is_empty, if◌then◌else◌,
}
use onvif_srvd_cmake.Prelude.Substring.{take, drop}

pub data HttpCall : Type 0 where
  fopen soap_response soap_send_raw : Text → HttpCall
  soap_end_send fclose : HttpCall

-- What the code uses of gSOAP. A call says whether it fails; `error` is soap->error, and `match`
-- says that soap_tag_cmp returns 0.
pub record Engine : Type 1 where
  pub State : Type 0
  pub response : Text → State → Bool × State
  pub send_raw : Text → State → Bool × State
  pub end_send : State → ℤ × State
  pub error : State → ℤ
  pub tag_match : Text → Text → Bool
  -- sizeof(soap->tmpbuf), less 1
  pub tmpbuf : ℕ

module _ (e : Engine) where
  open e use {State}

  pub record Served : Type 0 where
    pub status : ℤ
    pub calls : List HttpCall
    pub state : State

  abbrev pub before : List HttpCall → Served → Served
  before cs r = record { status = r.status; calls = cs ++ r.calls; state = r.state }

  abbrev pub before_some : List HttpCall → Option Served → Option Served
  before_some cs none = none
  before_some cs (some r) = some (before cs r)

  -- What both failures do: soap_end_send, fclose, and soap->error as the result.
  abbrev pub gives_up : State → Served
  gives_up s =
      let (_, s') = e.end_send s in
      record { status = e.error s'; calls = soap_end_send ∷ fclose ∷ []; state = s' }

  -- The loop of copy_file with what follows it; none where the fuel runs out.
  unfoldable pub copy_loop : ℕ → Text → State → Option Served
  copy_loop zero left s = none
  copy_loop (suc fuel) left s =
      let r : Text = take (suc e.tmpbuf) left in
      let (failed, s') = e.send_raw r s in
      let rest = copy_loop fuel (drop (suc e.tmpbuf) left) s' in
      if is_empty r
      then (let (status, s'') = e.end_send s in
          some (record { status = status; calls = fclose ∷ soap_end_send ∷ []; state = s'' }))
      else if failed
      then some (before (soap_send_raw r ∷ []) (gives_up s'))
      else before_some (soap_send_raw r ∷ []) rest

  module _ (files : Text → Option Text) (fuel : ℕ) where
    -- copy_file, without its printf.
    unfoldable pub copy_file : Text → Text → State → Option Served
    unfolding copy_loop
    copy_file name type s = elim (files name) [
      | none ↦ some (record { status = pos 404; calls = fopen name ∷ []; state = s })
      | some content ↦
          let (failed, s') = e.response type s in
          before_some (fopen name ∷ soap_response type ∷ [])
            (if failed then some (gives_up s') else copy_loop fuel content s')
    ]

    -- The pointer soap->path + 1; behind an empty path it leads to what the buffer holds there.
    abbrev pub name_of : Text → Text → Text
    name_of stale [] = stale
    name_of stale (b ∷ name) = name

    abbrev pub has : ℕ → Text → Bool
    has b t = any (λ x. x == b) t

    abbrev pub refuses : ℤ → State → Option Served
    refuses status s = some (record { status = status; calls = []; state = s })

    -- The chain of tests in http_get: the type that the file is sent with.
    unfoldable pub content_type : Text → Option Text
    content_type path =
        if e.tag_match path (bytes "*.html")
        then some (bytes "text/html")
        else if e.tag_match path (bytes "*.xml")
            || (e.tag_match path (bytes "*.xsd") || e.tag_match path (bytes "*.wsdl"))
        then some (bytes "text/xml")
        else if e.tag_match path (bytes "*.jpg")
        then some (bytes "image/jpeg")
        else if e.tag_match path (bytes "*.gif")
        then some (bytes "image/gif")
        else if e.tag_match path (bytes "*.png")
        then some (bytes "image/png")
        else if e.tag_match path (bytes "*.ico")
        then some (bytes "image/ico")
        else none

    -- http_get
    unfoldable pub http_get : Text → Text → State → Option Served
    unfolding copy_file content_type
    http_get stale path s =
        let name : Text = name_of stale path in
        if has b'/' name || has b'\\' name then refuses (pos 403) s else elim (content_type path) [
          | none ↦ refuses (pos 404) s
          | some type ↦ copy_file name type s
        ]
