-- ===== src/GSoap/Files/Paths.antt =====
-- Which files http_get opens.
use onvif_srvd_cmake.Prelude.{
  ℕ, zero, suc, Text, pos, Option, none, some, Bool, true, false, List, [], ◌∷◌, ◌≡◌, refl, ◌⊎◌,
  inl, inr, Bool-cases, Option-cases, is_empty, ◌||◌,
}
use onvif_srvd_cmake.Prelude.Substring.{take}
use onvif_srvd_cmake.GSoap.Files.{
  HttpCall, fopen, soap_response, soap_send_raw, Engine, Served, before_some, copy_loop, copy_file,
  http_get, has, name_of, refuses, content_type,
}

abbrev pub opened : List HttpCall → List Text
opened [] = []
opened (fopen name ∷ cs) = name ∷ opened cs
opened (_ ∷ cs) = opened cs

module _ (e : Engine) (files : Text → Option Text) (fuel : ℕ) where
  abbrev pub opened_by : Option (Served e) → List Text
  opened_by none = []
  opened_by (some r) = opened r.calls

  -- No file is opened, or only the one with this name.
  abbrev pub OpensOnly : Text → Option (Served e) → Type 0
  OpensOnly name o = (opened_by o ≡ []) ⊎ (opened_by o ≡ name ∷ [])

  opened-sent :
      (t : Text) (o : Option (Served e))
      → opened_by (before_some e (soap_send_raw t ∷ []) o) ≡ opened_by o
  opened-sent t none = refl
  opened-sent t (some r) = refl

  copy_loop-opened :
      (n : ℕ) (content : Text) (s : e.State) → opened_by (copy_loop e n content s) ≡ []
  unfolding copy_loop
  copy_loop-opened zero content s = refl
  copy_loop-opened (suc n) content s =
      let r : Text = take (suc e.tmpbuf) content in
      elim (Bool-cases (is_empty r)) [
        | inl done ↦ rw (done, copy_loop) refl
        | inr more ↦ elim (Bool-cases (e.send_raw r s).0) [
          | inl failed ↦ rw (more, copy_loop) (rw failed refl)
          | inr sent ↦ rw (more, copy_loop) (rw (sent, opened-sent r) (copy_loop-opened n _ _))
        ]
      ]

  opens_first :
      (name type : Text) (o : Option (Served e))
      → opened_by o ≡ []
      → OpensOnly name (before_some e (fopen name ∷ soap_response type ∷ []) o)
  opens_first name type none h = inl refl
  opens_first name type (some r) h = inr (rw h refl)

  copy_file-OpensOnly :
      (name type : Text) (s : e.State) → OpensOnly name (copy_file e files fuel name type s)
  unfolding copy_file
  copy_file-OpensOnly name type s = elim (Option-cases (files name)) [
    | inl missing ↦ rw (missing, copy_file) (inr refl)
    | inr (content, found) ↦ elim (Bool-cases (e.response type s).0) [
      | inl failed ↦ rw (found, copy_file) (rw failed (inr refl))
      | inr answered ↦
          rw (found, copy_file)
            (rw answered (opens_first name type _ (copy_loop-opened fuel content _)))
    ]
  ]

  -- The name leads into another directory.
  abbrev pub parts : Text → Bool
  parts name = has e files fuel b'/' name || has e files fuel b'\\' name

  -- How a request for a path is answered.
  abbrev pub Answers : Text → Text → e.State → Option (Served e) → Type 0
  Answers path name s answer =
      ((parts name ≡ true) × (answer ≡ refuses e files fuel (pos 403) s))
      ⊎ ((parts name ≡ false)
          × (content_type e files fuel path ≡ none)
          × (answer ≡ refuses e files fuel (pos 404) s))
      ⊎ ((parts name ≡ false)
          × ((type : Text) × (content_type e files fuel path ≡ some type)
              × (answer ≡ copy_file e files fuel name type s)
              × OpensOnly name answer))

  -- A GET request for a name with a slash or a backslash is answered with 403, and another one
  -- whose path has none of the known endings with 404; neither calls anything. Any other copies the
  -- file of that name and opens no other file: no file outside the working directory is given out.
  -- The name is the path behind its first character.
  pub http_get-Answers :
      (stale path : Text) (s : e.State)
      → Answers path (name_of e files fuel stale path) s (http_get e files fuel stale path s)
  unfolding http_get
  http_get-Answers stale path s =
      let name : Text = name_of e files fuel stale path in
      elim (Bool-cases (parts name)) [
        | inl outside ↦ rw (outside, http_get) (inl (refl, refl))
        | inr inside ↦ elim (Option-cases (content_type e files fuel path)) [
          | inl unknown ↦ rw (inside, http_get) (rw unknown (inr (inl (refl, refl, refl))))
          | inr (type, known) ↦
              rw (inside, http_get)
                (rw known (inr (inr (refl, (type, refl, refl, copy_file-OpensOnly name type s)))))
        ]
      ]
