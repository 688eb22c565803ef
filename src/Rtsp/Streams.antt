-- ===== src/Rtsp/Streams.antt =====
-- The table of streams.
use onvif_srvd_cmake.Table.{Table}
use onvif_srvd_cmake.Prelude.{
  Text, some, true, ◌≡◌, refl, inl, inr, str_eq, is_some, Bool-cases, if◌then◌else◌, ◌&&◌, not,
}
use onvif_srvd_cmake.Prelude.StdMap.{
  find, IsSorted, IsSorted-assign, Every, Every-assign, find-assign,
}
use onvif_srvd_cmake.Rtsp.{
  new_streams, RtspStreamConfig, RtspStream, add_stream, is_valid, get_stream,
}

-- A stored stream stands under its URL and is valid.
pub record IsStored (url : Text) (s : RtspStreamConfig) : Type 0 where
  pub named : s.rtsp_url ≡ url
  pub valid : is_valid s ≡ true

pub record IsWellFormed (r : RtspStream) : Type 0 where
  pub sorted : IsSorted r.streams
  pub stored : Every IsStored r.streams

-- Adding a stream, accepted or refused, keeps the table well formed: its URLs ascend, with none
-- twice, and every stream in it is valid and stands under its URL.
pub add_stream-IsWellFormed :
    (s : RtspStreamConfig) (r : RtspStream) → IsWellFormed r → IsWellFormed (add_stream s r).0
unfolding add_stream
add_stream-IsWellFormed s r w = elim (Bool-cases (is_valid s)) [
  | inl valid ↦ elim (Bool-cases (is_some (find s.rtsp_url r.streams))) [
    | inl known ↦ rw (valid, known, add_stream) (record { sorted = w.sorted; stored = w.stored })
    | inr new ↦
        rw (valid, new, add_stream)
          (record {
            sorted = IsSorted-assign s.rtsp_url s r.streams w.sorted;
            stored =
                Every-assign IsStored s.rtsp_url s r.streams
                  (record { named = refl; valid = valid }) w.stored;
          })
  ]
  | inr bad ↦ rw (bad, add_stream) (record { sorted = w.sorted; stored = w.stored })
]

-- A stream is accepted exactly if it is valid and its URL is new. Then get_stream finds it under
-- its URL and what it found before under every other; else it finds what it found before.
pub get_stream-add_stream :
    (s : RtspStreamConfig) (r : RtspStream) (url : Text)
    → ((add_stream s r).1 ≡ (is_valid s && not (is_some (get_stream s.rtsp_url r))))
      × (get_stream url (add_stream s r).0
          ≡ (if (add_stream s r).1 && str_eq s.rtsp_url url then some s else get_stream url r))
unfolding add_stream get_stream
get_stream-add_stream s r url = elim (Bool-cases (is_valid s)) [
  | inl valid ↦ elim (Bool-cases (is_some (find s.rtsp_url r.streams))) [
    | inl known ↦ rw (valid, known, add_stream) (refl, refl)
    | inr new ↦ rw (valid, new, add_stream) (refl, find-assign s.rtsp_url url s r.streams)
  ]
  | inr bad ↦ rw (bad, add_stream) (refl, refl)
]

pub new_streams-IsWellFormed : IsWellFormed new_streams
unfolding new_streams
new_streams-IsWellFormed = record { sorted = tt; stored = tt }

-- RTSPStream as a table of streams.
abbrev pub stream_table : Table
stream_table = record {
  Item = RtspStreamConfig;
  State = RtspStream;
  key = λ s. s.rtsp_url;
  is_valid = is_valid;
  lookup = get_stream;
  add = add_stream;
  add-accepted = λ s r. (get_stream-add_stream s r s.rtsp_url).0;
  lookup-add = λ s r k. (get_stream-add_stream s r k).1;
}
