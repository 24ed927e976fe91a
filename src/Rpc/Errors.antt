-- ===== src/Rpc/Errors.antt =====
-- crates/pnio/src/rpc/mod.rs: the errors of the RPC codecs. `panic` is not an error of the code: it
-- stands for the places where an `unwrap` or `expect` would panic. The error of a socket is left
-- out, since no codec gives it.
use Prim.Native.String.{String}
use pnio_rs.Prelude.{ℕ, Bool, true, false, ◌≡◌, ◌≢◌, refl, Option, none, some}
use pnio_rs.Prelude.{Result, ok, err, ◌>>=◌, ◌>>◌, fail_if}
use pnio_rs.Rpc.Uuid.{Uuid}

pub data RpcError : Type 0 where
  too_short : ℕ → ℕ → RpcError
  bad_version : ℕ → RpcError
  unsupported_ptype : ℕ → RpcError
  fragmented : ℕ → ℕ → RpcError
  bad_interface : Uuid → RpcError
  ndr_mismatch : String → RpcError
  panic : RpcError

-- `unwrap` and `expect`
abbrev pub unwrap {ℓ} : {A : Type ℓ} → Option A → Result RpcError A
unwrap none = err panic
unwrap (some a) = ok a

abbrev pub NoPanic {ℓ} : {A : Type ℓ} → Result RpcError A → Type 0
NoPanic (ok a) = Unit
NoPanic (err e) = e ≢ panic

-- A chain does not panic when its parts do not; a later part may use that the one before it
-- succeeded.
pub >>=-NoPanic {ℓ κ} :
    {A : Type ℓ} {B : Type κ} (m : Result RpcError A) (f : A → Result RpcError B)
    → NoPanic m
    → ((a : A) → m ≡ ok a → NoPanic (f a))
    → NoPanic (m >>= f)
>>=-NoPanic (ok a) f hm hf = hf a refl
>>=-NoPanic (err e) f hm hf = hm

pub fail_if-NoPanic {ℓ} :
    {B : Type ℓ} (b : Bool) (e : RpcError) (next : Result RpcError B)
    → e ≢ panic
    → (b ≡ false → NoPanic next)
    → NoPanic (fail_if b e >> next)
fail_if-NoPanic true e next h k = h
fail_if-NoPanic false e next h k = k refl
