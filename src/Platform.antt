-- ===== src/Platform.antt =====
-- watch/src/platform/watch_platform.h and watch_platform_native.c: what the simulated watch offers.
use Prim.Native.Nat.{bit_and, bit_or}
use cmf_watch_pro_2_os.Base.{ℕ, ◌^◌, Bool, true, not, List, ◌==◌, codes, Result, ok, Errno}

-- `enum watch_platform_capability`
pub data Capability : Type 0 where
  display touch button crown battery rtc storage ble sensors power : Capability

abbrev pub bit : Capability → ℕ
bit Capability.display = 2 ^ 0
bit Capability.touch = 2 ^ 1
bit Capability.button = 2 ^ 2
bit Capability.crown = 2 ^ 3
bit Capability.battery = 2 ^ 4
bit Capability.rtc = 2 ^ 5
bit Capability.storage = 2 ^ 6
bit Capability.ble = 2 ^ 7
bit Capability.sensors = 2 ^ 8
bit Capability.power = 2 ^ 9

pub record PlatformInfo : Type 0 where
  pub name : List ℕ
  pub display_width : ℕ
  pub display_height : ℕ
  pub capabilities : ℕ
  pub round_display : Bool

abbrev pub native_info : PlatformInfo
native_info = record {
  name = codes "native_sim";
  display_width = 466;
  display_height = 466;
  capabilities =
      bit_or
        (bit_or
          (bit_or
            (bit_or (bit_or (bit Capability.display) (bit Capability.touch))
              (bit Capability.button))
            (bit Capability.rtc))
          (bit Capability.storage))
        (bit Capability.power);
  round_display = true;
}

abbrev pub init : Result Errno (Unit {0})
init = ok tt

unfoldable pub has : Capability → Bool
has capability = not (bit_and native_info.capabilities (bit capability) == 0)
