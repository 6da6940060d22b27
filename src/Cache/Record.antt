-- ===== src/Cache/Record.antt =====
-- The cached record, its checksum, and when a record is valid.
use Prim.Native.Nat.{bit_xor}
use cmf_watch_pro_2_os.Base.{
  ℕ, ◌*◌, ◌%◌, ◌^◌, Bool, false, ◌&&◌, ◌||◌, List, [], ◌∷◌, ltb, leb, ◌==◌,
}
use cmf_watch_pro_2_os.Base.Int.{ℤ, pos}
use cmf_watch_pro_2_os.State.{NotificationList, no_notifications, notification_capacity}

abbrev pub cache_magic : ℕ
cache_magic = 0x434d4643

abbrev pub schema_version : ℕ
schema_version = 1

pub record Metadata : Type 0 where
  pub version : ℕ
  pub updated_at_ms : ℕ
  pub stale : Bool

-- `struct watch_cache_record`. A record read from a file can hold any number as its screen, so that
-- is the enumerator's value. The texts are those before the terminators, which a record that is
-- captured has; one from a file is assumed to have them (Slotted of Runtime/Health/Loading.antt says so
-- for the notifications, which nothing cuts). What the arrays hold behind them is left to Layout.
pub record CacheRecord : Type 0 where
  pub magic : ℕ
  pub schema : ℕ
  pub record_size : ℕ
  pub checksum : ℕ
  pub weather_meta : Metadata
  pub temperature_c : ℤ
  pub weather_condition : List ℕ
  pub activity_meta : Metadata
  pub steps : ℕ
  pub notifications_meta : Metadata
  pub notifications : NotificationList
  pub music_meta : Metadata
  pub music_title : List ℕ
  pub music_playing : Bool
  pub application_meta : Metadata
  pub active_screen : ℕ
  pub connection_meta : Metadata
  pub synchronized_revision : ℕ
  pub assets_meta : Metadata
  pub asset_generation : ℕ

-- What the compiler chooses: the bytes of a record in memory, padding included, and their number,
-- `sizeof(struct watch_cache_record)`.
pub record Layout : Type 0 where
  pub image : CacheRecord → List ℕ
  pub size : ℕ

-- One round of the 32-bit FNV-1a hash.
unfoldable pub fnv_round : ℕ → ℕ → ℕ
fnv_round hash byte = (bit_xor hash byte * 16777619) % 2 ^ 32

unfoldable pub fnv : ℕ → List ℕ → ℕ
unfolding fnv_round
fnv hash [] = hash
fnv hash (b ∷ bytes) = fnv (fnv_round hash b) bytes

abbrev pub blank_meta : Metadata
blank_meta = record { version = 0; updated_at_ms = 0; stale = false }

module _ (layout : Layout) where
  unfoldable pub checksum_of : CacheRecord → ℕ
  checksum_of c = fnv 2166136261 (layout.image (record c { checksum = 0 }))

  unfoldable pub seal : CacheRecord → CacheRecord
  seal c = record c { checksum = checksum_of c }

  unfoldable pub init : CacheRecord
  init = seal (record {
    magic = cache_magic;
    schema = schema_version;
    record_size = layout.size;
    checksum = 0;
    weather_meta = blank_meta;
    temperature_c = pos 0;
    weather_condition = [];
    activity_meta = blank_meta;
    steps = 0;
    notifications_meta = blank_meta;
    notifications = no_notifications;
    music_meta = blank_meta;
    music_title = [];
    music_playing = false;
    application_meta = blank_meta;
    active_screen = 0;
    connection_meta = blank_meta;
    synchronized_revision = 0;
    assets_meta = record blank_meta { version = 1 };
    asset_generation = 1;
  })

  abbrev pub valid_header : CacheRecord → Bool
  valid_header c =
      c.magic == cache_magic && c.schema == schema_version && c.record_size == layout.size

  -- The counts with which the watch indexes the entries.
  abbrev pub valid_indices : CacheRecord → Bool
  valid_indices c =
      leb c.notifications.stored_count notification_capacity
      && (c.notifications.stored_count == 0 && c.notifications.active_index == 0
          || ltb c.notifications.active_index c.notifications.stored_count)

  unfoldable pub valid : CacheRecord → Bool
  valid c =
      valid_header c
      && (leb 0 c.active_screen && ltb c.active_screen 5)
      && valid_indices c
      && c.checksum == checksum_of c
