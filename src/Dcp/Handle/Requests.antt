-- ===== src/Dcp/Handle/Requests.antt =====
-- What the device does with the requests of a station.
use pnio_rs.Prelude.{ℕ, ◌≡◌, ◌<◌, arith, refl, sym, ap, ◌∙◌, Bool, true, Option, none, some}
use pnio_rs.Prelude.{List, [], ◌∷◌, ◌++◌, Bytes, length, be16, ok}
use pnio_rs.Prelude.{IsU16, IsU32, be16_lem, append-nil, ◌&&◌, ◌||◌}
use pnio_rs.Prelude.{if◌then◌else◌, any}
use pnio_rs.Eth.Header.{MacAddr, EthHeader, ethertype_profinet}
use pnio_rs.Eth.Header
use pnio_rs.Eth.RoundTrip.{parse-write_untagged}
use pnio_rs.Rpc.Uuid.{bytes_eq}
use pnio_rs.Cm.Requests.Parse.{is_utf8}
use pnio_rs.Dcp.Block.{DcpBlock, write_blocks}
use pnio_rs.Dcp.Frame.{
  FrameId, ServiceId, get, set, request, DcpHeader, frame_id_code, frame_id_of, identify_request,
  identify_response, get_set, hello_frame,
}
use pnio_rs.Dcp.Frame
use pnio_rs.Dcp.Frame.RoundTrip.{dcp_parse-write}
use pnio_rs.Dcp.Identify.{IdentifyFilter, is_name, is_all, build_identify_response}
use pnio_rs.Dcp.Handle.{DcpConfig, Reaction, silent, answers, by_id, handle_dcp_frame}
use pnio_rs.Dcp.Handle.Answers.{untagged, frame_id_fits}

-- The header of a request with these blocks.
abbrev pub request_header : ServiceId → ℕ → ℕ → Bytes → DcpHeader
request_header service xid delay blocks = record {
  service_id = service;
  service_type = request;
  xid = xid;
  response_delay = delay;
  data_length = length blocks;
}

-- A request of the station `src`.
abbrev pub request_frame : MacAddr → MacAddr → FrameId → ServiceId → ℕ → ℕ → List DcpBlock → Bytes
request_frame dst src id service xid delay blocks =
    Header.write (untagged dst src)
    ++ (be16 (frame_id_code id)
        ++ (Frame.write (request_header service xid delay (write_blocks blocks))
            ++ write_blocks blocks))

frame_id_lem : (id : FrameId) → frame_id_of (frame_id_code id) ≡ some id
unfolding frame_id_of
frame_id_lem identify_request = refl
frame_id_lem identify_response = refl
frame_id_lem get_set = refl
frame_id_lem hello_frame = refl

module _ (dst src : MacAddr) (id : FrameId) (service : ServiceId) (xid delay : ℕ)
    (blocks : List DcpBlock) (hx : IsU32 xid) (hd : IsU16 delay)
    (hl : length (write_blocks blocks) < 65536) where
  pub header_read :
      Frame.parse (
        Frame.write (request_header service xid delay (write_blocks blocks)) ++ write_blocks blocks)
      ≡ ok (request_header service xid delay (write_blocks blocks), write_blocks blocks)
  header_read =
      ap
        (λ (b : Bytes).
          Frame.parse (Frame.write (request_header service xid delay (write_blocks blocks)) ++ b))
        (sym (append-nil (write_blocks blocks)))
      ∙ dcp_parse-write (request_header service xid delay (write_blocks blocks))
          (write_blocks blocks) [] hx hd hl refl

  abbrev pub payload : Bytes
  payload =
      be16 (frame_id_code id)
      ++ (Frame.write (request_header service xid delay (write_blocks blocks))
          ++ write_blocks blocks)

  -- The request is handled by its frame id.
  pub handled_by :
      (cfg : DcpConfig)
      → handle_dcp_frame (request_frame dst src id service xid delay blocks) cfg
        ≡ by_id (some id) (untagged dst src) payload cfg
  unfolding handle_dcp_frame Header.write
  handled_by cfg = ground (
    arith,
    parse-write_untagged dst src ethertype_profinet payload (omega arith)
        (λ e. absurd (omega arith)),
    be16_lem (frame_id_code id) (frame_id_fits id),
    frame_id_lem id,
  )

-- The name that the last NameOfStation block asks for.
abbrev pub wanted : Option Bytes → List DcpBlock → Option Bytes
wanted name [] = name
wanted name (b ∷ bs) = wanted (if is_name b then some b.value else name) bs

-- There is no other block than names and the AllSelector.
abbrev pub confirmable : List DcpBlock → Bool
confirmable [] = true
confirmable (b ∷ bs) = (is_name b || is_all b) && confirmable bs

abbrev matches_name : Option Bytes → Bytes → List DcpBlock → Bool
matches_name none name blocks = any is_all blocks
matches_name (some asked) name blocks = bytes_eq asked name

-- Whether these filter blocks ask for the station `name`.
abbrev pub asks_for : Bytes → List DcpBlock → Bool
asks_for name blocks = confirmable blocks && matches_name (wanted none blocks) name blocks

abbrev pub NameIsUtf8 : DcpBlock → Type 0
NameIsUtf8 b = is_name b ≡ true → is_utf8 b.value ≡ true

-- The loop without its errors.
added : IdentifyFilter → DcpBlock → IdentifyFilter
added f b =
    if is_name b
    then record f { name_of_station = some b.value }
    else if is_all b
    then record f { all_selector = true }
    else record f { other_filters = f.other_filters ++ ((b.option, b.suboption) ∷ []) }

filter_of : IdentifyFilter → List DcpBlock → IdentifyFilter
filter_of f [] = f
filter_of f (b ∷ bs) = filter_of (added f b) bs

-- What the device sends for an Identify request.
abbrev pub identify_reaction : MacAddr → ℕ → DcpConfig → List DcpBlock → Reaction
identify_reaction src xid cfg blocks =
    if asks_for cfg.properties.name_of_station blocks
    then answers (build_identify_response src cfg.mac xid cfg.properties)
    else silent
