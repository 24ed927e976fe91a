-- ===== src/Rpc/Header/RoundTrip.antt =====
-- Reading back a written RPC header.
use pnio_rs.Prelude.{ℕ, Bool, ◌≡◌, arith, refl, true, false, Bytes, ◌++◌, ok, IsU16, IsU32}
use pnio_rs.Prelude.{
  test_bit, [], ◌-◌, drop, slice, length, byte_at, ltb, not, ◌==◌, ◌||◌, ◌+◌, ◌≤◌, length-take,
  length-drop,
}
use pnio_rs.Rpc.Errors.{
  too_short, bad_version, fragmented, NoPanic, >>=-NoPanic, fail_if-NoPanic, unwrap,
}
use pnio_rs.Rpc.Drep.{Drep, big, little, from_byte, to_bytes, u16, u32, put_u16, put_u32}
use pnio_rs.Rpc.Uuid.{Uuid, IsUuid, read-write}
use pnio_rs.Rpc.Uuid
use pnio_rs.Rpc.Header.{
  PacketType, request, ping, response, fault, working, nocall, reject, ack, cl_cancel, fack,
  cancel_ack, packet_type, packet_code, RpcHeader, version, flag1_frag_bit, header_len, parse,
  write,
}

-- The values that the fields of a packet that is not a fragment can hold.
pub record IsHeader (h : RpcHeader) : Type 0 where
  pub whole : test_bit h.flags1 2 ≡ false
  pub object_fits : IsUuid h.object
  pub interface_fits : IsUuid h.interface_id
  pub activity_fits : IsUuid h.activity
  pub server_boot_fits : IsU32 h.server_boot
  pub if_version_fits : IsU32 h.if_version
  pub seq_num_fits : IsU32 h.seq_num
  pub opnum_fits : IsU16 h.opnum
  pub ihint_fits : IsU16 h.ihint
  pub ahint_fits : IsU16 h.ahint
  pub frag_len_fits : IsU16 h.frag_len
  pub not_a_fragment : h.frag_num ≡ 0

pub packet_type-packet_code : (t : PacketType) → packet_type (packet_code t) ≡ ok t
unfolding packet_type packet_code
packet_type-packet_code request = refl
packet_type-packet_code ping = refl
packet_type-packet_code response = refl
packet_type-packet_code fault = refl
packet_type-packet_code working = refl
packet_type-packet_code nocall = refl
packet_type-packet_code reject = refl
packet_type-packet_code ack = refl
packet_type-packet_code cl_cancel = refl
packet_type-packet_code fack = refl
packet_type-packet_code cancel_ack = refl

at_order :
    (little_endian : Bool) (h : RpcHeader) (rest : Bytes)
    → IsHeader h
    → let h' : RpcHeader = record h { drep = record { little_endian = little_endian } } in
      parse (write h' ++ rest) ≡ ok h'
unfolding parse write Uuid.write from_byte to_bytes u16 u32 put_u16 put_u32
at_order true h rest i = ground (
  arith,
  packet_type-packet_code h.ptype,
  read-write h.object little [] i.object_fits,
  read-write h.interface_id little [] i.interface_fits,
  read-write h.activity little [] i.activity_fits,
)
at_order false h rest i = ground (
  arith,
  packet_type-packet_code h.ptype,
  read-write h.object big [] i.object_fits,
  read-write h.interface_id big [] i.interface_fits,
  read-write h.activity big [] i.activity_fits,
)

-- A written header is read back, whatever follows it, in either byte order.
pub header_parse-write :
    (h : RpcHeader) (rest : Bytes) → IsHeader h → parse (write h ++ rest) ≡ ok h
header_parse-write h rest i = at_order h.drep.little_endian h rest i

read-slice :
    (buf : Bytes) (from : ℕ) (drep : Drep)
    → from + 16 ≤ length buf
    → NoPanic (unwrap (Uuid.read (slice buf from (from + 16)) drep))
unfolding Uuid.read
read-slice buf from drep h =
    ground (arith, length-take (from + 16 - from) (drop from buf), length-drop from buf)

packet_type-NoPanic : (b : ℕ) → NoPanic (packet_type b)
unfolding packet_type
packet_type-NoPanic b = ground arith

-- The three UUIDs are there, since the length was tested: the reader does not panic.
pub parse-NoPanic : (buf : Bytes) → NoPanic (parse buf)
unfolding parse
parse-NoPanic buf =
    fail_if-NoPanic (ltb (length buf) header_len) (too_short _ _) _ (λ e. cc)
      (λ long.
        fail_if-NoPanic (not (byte_at buf 0 == version)) (bad_version _) _ (λ e. cc)
          (λ _. >>=-NoPanic _ _ (packet_type-NoPanic (byte_at buf 1)) (λ _ _.
            >>=-NoPanic _ _ (read-slice buf 8 _ (ground arith)) (λ _ _.
              >>=-NoPanic _ _ (read-slice buf 24 _ (ground arith)) (λ _ _.
                >>=-NoPanic _ _ (read-slice buf 40 _ (ground arith)) (λ _ _.
                  let frag_num = u16 (from_byte (byte_at buf 4)) buf 76 in
                  fail_if-NoPanic (not (frag_num == 0) || test_bit (byte_at buf 2) flag1_frag_bit)
                    (fragmented frag_num (byte_at buf 2)) _ (λ e. cc) (λ _. tt)))))))
