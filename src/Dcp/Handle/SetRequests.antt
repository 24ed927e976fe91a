-- ===== src/Dcp/Handle/SetRequests.antt =====
-- What the device does with a Set request.
use pnio_rs.Prelude.{ℕ, ◌≡◌, Bool, true, some}
use pnio_rs.Prelude.{List, ◌++◌, map, length, slice, ok}
use pnio_rs.Prelude.{◌&&◌, ◌==◌, if◌then◌else◌}
use pnio_rs.Rpc.Uuid.{bytes_eq}
use pnio_rs.Dcp.Block.{DcpBlock}
use pnio_rs.Dcp.Identify.{DeviceProperties}
use pnio_rs.Dcp.Set.{
  SetBlock, ip_suite, other, SetResult, set_ok, set_not_possible, suboption_not_supported,
  set_blocks, decide,
}

abbrev pub is_ip_parameter : DcpBlock → Bool
is_ip_parameter b = b.option == 1 && b.suboption == 2

-- The address, the mask and the gateway are four bytes each.
pub record IsSuite (props : DeviceProperties) : Type 0 where
  pub ip_four : length props.ip ≡ 4
  pub subnet_four : length props.subnet ≡ 4
  pub gateway_four : length props.gateway ≡ 4

-- The verdict on a block: the IP suite is accepted when it is the device's own, as a whole.
abbrev pub verdict : DeviceProperties → DcpBlock → SetResult
verdict props b =
    if is_ip_parameter b
    then record {
      option = 1;
      suboption = 2;
      outcome =
          if bytes_eq b.value (props.ip ++ (props.subnet ++ props.gateway))
          then set_ok
          else set_not_possible;
    }
    else record { option = b.option; suboption = b.suboption; outcome = suboption_not_supported }

-- An IPParameter block has twelve bytes.
abbrev pub IsTwelve : DcpBlock → Type 0
IsTwelve b = is_ip_parameter b ≡ true → length b.value ≡ 12

decoded : DcpBlock → ℕ → SetBlock
decoded b qualifier =
    if is_ip_parameter b
    then ip_suite qualifier (slice b.value 0 4) (slice b.value 4 8) (slice b.value 8 12)
    else other b.option b.suboption

-- What comes of a list of blocks.
record Decided (props : DeviceProperties) (bs : List DcpBlock) : Type 0 where
  pub reqs : List SetBlock
  pub parsed : set_blocks bs ≡ ok (some reqs)
  pub verdicts : map (decide props) reqs ≡ map (verdict props) bs
