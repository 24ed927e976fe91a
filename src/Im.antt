-- ===== src/Im.antt =====
-- crates/pnio/src/im.rs: the identification and maintenance records. Strings are their UTF-8 bytes
-- and a `char` is its code point. The files are not modelled: `load` takes what was read from the
-- file, and `persisted` is what `persist` writes to it.
pub mod Laws
use Prim.Native.String.{String}
use pnio_rs.Prelude.{ℕ, ◌+◌, ◌-◌, ◌%◌, Bool, not, ◌||◌, Option, none, some, min, [], ◌∷◌, ◌++◌}
use pnio_rs.Prelude.{Bytes, length, take, drop, slice, replicate, any, ltb, leb, ◌==◌}
use pnio_rs.Prelude.{if◌then◌else◌, be16, Result, ok, err, ◌>>=◌, ◌>>◌, fail_if, map_err}
use pnio_rs.Cm.Block.{BlockError}
use pnio_rs.Cm.Block

abbrev pub block_type_im0 : ℕ
block_type_im0 = 0x0020

abbrev pub block_type_im1 : ℕ
block_type_im1 = 0x0021

abbrev pub block_type_im2 : ℕ
block_type_im2 = 0x0022

abbrev pub block_type_im3 : ℕ
block_type_im3 = 0x0023

abbrev pub index_im0 : ℕ
index_im0 = 0xAFF0

abbrev pub index_im1 : ℕ
index_im1 = 0xAFF1

abbrev pub index_im2 : ℕ
index_im2 = 0xAFF2

abbrev pub index_im3 : ℕ
index_im3 = 0xAFF3

abbrev pub im_supported_dap : ℕ
im_supported_dap = 0x000E

abbrev pub im1_len : ℕ
im1_len = 54

abbrev pub im2_len : ℕ
im2_len = 16

abbrev pub im3_len : ℕ
im3_len = 54

pub record SwRevision : Type 0 where
  pub letter : ℕ
  pub functional : ℕ
  pub bug_fix : ℕ
  pub internal : ℕ

pub record Im0 : Type 0 where
  pub order_id : Bytes
  pub serial_number : Bytes
  pub hardware_revision : ℕ
  pub software_revision : SwRevision
  pub revision_counter : ℕ
  pub profile_id : ℕ
  pub profile_specific_type : ℕ

pub data ImError : Type 0 where
  not_ascii : String → ImError
  too_long : String → ℕ → ImError
  bad_prefix : ℕ → ImError
  bad_record : ℕ → String → ImError

-- `str::is_ascii`
abbrev pub is_ascii : Bytes → Bool
is_ascii s = not (any (λ c. leb 128 c) s)

-- `"VRPUT".contains(c)`
abbrev pub is_sw_prefix : ℕ → Bool
is_sw_prefix c = any (λ v. v == c) (b'V' ∷ b'R' ∷ b'P' ∷ b'U' ∷ b'T' ∷ [])

unfoldable pub validate : Im0 → Result ImError (Unit {0})
validate im0 = do
  fail_if (not (is_ascii im0.order_id)) (not_ascii "order_id")
  fail_if (ltb 20 (length im0.order_id)) (too_long "order_id" 20)
  fail_if (not (is_ascii im0.serial_number)) (not_ascii "serial_number")
  fail_if (ltb 16 (length im0.serial_number)) (too_long "serial_number" 16)
  fail_if (not (is_sw_prefix im0.software_revision.letter))
      (bad_prefix im0.software_revision.letter)

-- `Im0::default`; the order id is "pnio device".
abbrev pub default_im0 : Im0
default_im0 = record {
  order_id = b'p' ∷ b'n' ∷ b'i' ∷ b'o' ∷ 32 ∷ b'd' ∷ b'e' ∷ b'v' ∷ b'i' ∷ b'c' ∷ b'e' ∷ [];
  serial_number = [];
  hardware_revision = 1;
  software_revision = record { letter = b'V'; functional = 0; bug_fix = 1; internal = 0 };
  revision_counter = 0;
  profile_id = 0;
  profile_specific_type = 0;
}

-- What `push_padded` appends.
unfoldable pub push_padded : Bytes → ℕ → Bytes
push_padded s len = let n = min (length s) len in take n s ++ replicate (len - n) 32

unfoldable pub encode_im0 : ℕ → Im0 → ℕ → Bytes
encode_im0 vendor_id im0 supported =
    Block.write block_type_im0 54
    ++ (be16 vendor_id
        ++ (push_padded im0.order_id 20
            ++ (push_padded im0.serial_number 16
                ++ (be16 im0.hardware_revision
                    ++ ((im0.software_revision.letter % 256)
                        ∷ im0.software_revision.functional
                        ∷ im0.software_revision.bug_fix
                        ∷ im0.software_revision.internal
                        ∷ (be16 im0.revision_counter
                            ++ (be16 im0.profile_id
                                ++ (be16 im0.profile_specific_type
                                    ++ (1 ∷ 1 ∷ be16 supported)))))))))

pub record ImStore : Type 0 where
  pub im1 : Bytes
  pub im2 : Bytes
  pub im3 : Bytes
  pub path : Option Bytes

abbrev pub new : ImStore
new = record {
  im1 = replicate im1_len 32;
  im2 = replicate im2_len 32;
  im3 = replicate im3_len 32;
  path = none;
}

abbrev pub loaded : ImStore → Bytes → ImStore
loaded store content = record store {
  im1 = take im1_len content;
  im2 = slice content im1_len (im1_len + im2_len);
  im3 = slice content (im1_len + im2_len) (im1_len + im2_len + im3_len);
}

-- The second argument is what reading the file gave, `none` for an error.
unfoldable pub load : Option Bytes → Option Bytes → ImStore
load none file = new
load (some p) none = record new { path = some p }
load (some p) (some content) =
    let store = record new { path = some p } in
    if length content == im1_len + im2_len + im3_len then loaded store content else store

-- The data that `persist` writes when there is a path.
unfoldable pub persisted : ImStore → Bytes
persisted store = store.im1 ++ (store.im2 ++ store.im3)

abbrev full_record : ℕ → Bytes → Option Bytes
full_record block_type body = some (Block.write block_type (length body % 65536) ++ body)

unfoldable pub read : ImStore → ℕ → Option Bytes
read store index =
    if index == index_im1
    then full_record block_type_im1 store.im1
    else if index == index_im2
    then full_record block_type_im2 store.im2
    else if index == index_im3
    then full_record block_type_im3 store.im3
    else none

-- The block type and length of a record.
abbrev pub shape_of : ℕ → Option (ℕ × ℕ)
shape_of index =
    if index == index_im1
    then some (block_type_im1, im1_len)
    else if index == index_im2
    then some (block_type_im2, im2_len)
    else if index == index_im3
    then some (block_type_im3, im3_len)
    else none

abbrev pub put_body : ImStore → ℕ → Bytes → ImStore
put_body store index body =
    if index == index_im1
    then record store { im1 = body }
    else if index == index_im2
    then record store { im2 = body }
    else record store { im3 = body }

abbrev malformed_header : ℕ → BlockError → ImError
malformed_header index e = bad_record index "malformed block header"

abbrev checked : ImStore → ℕ → Bytes → ℕ × ℕ → Result ImError ImStore
checked store index full shape = do
  (header, body) ← map_err (malformed_header index) (Block.parse full)
  fail_if (not (header.block_type == shape.0))
      (bad_record index "block type does not match the record index")
  fail_if (not (length body == shape.1))
      (bad_record index "body length does not match the fixed record length")
  ok (put_body store index body)

-- The store behind a write that is accepted.
unfoldable pub write : ImStore → ℕ → Bytes → Result ImError ImStore
write store index full = elim (shape_of index) [
  | none ↦ err (bad_record index "unknown I&M record index")
  | some shape ↦ checked store index full shape
]
