-- ===== src/Protocol/Bodies.antt =====
-- racelink/protocol/packets.py: the fixed-length bodies and OPC_SYNC.
use gatecontrol_lora.Prelude.{
  ℕ, ==_iff, Bool-cases, Option, [], arith, byte, if◌then◌else◌, inl, inr, length, negsuc, none,
  pos, refl, some, wrap, ℤ, ◌%◌, ◌*◌, ◌++◌, ◌+◌, ◌/◌, ◌<◌, ◌==◌, ◌∷◌, ◌≡◌,
}
use gatecontrol_lora.Protocol.Struct.{Bytes}

unfoldable pub build_get_devices_body : ℤ → ℤ → Bytes
build_get_devices_body group_id flags = byte group_id ∷ byte flags ∷ []

unfoldable pub build_set_group_body : ℤ → Bytes
build_set_group_body group_id = byte group_id ∷ []

unfoldable pub build_preset_body : ℤ → ℤ → ℤ → ℤ → Bytes
build_preset_body group_id flags preset_id brightness =
    byte group_id ∷ byte flags ∷ byte preset_id ∷ byte brightness ∷ []

unfoldable pub build_config_body : ℤ → ℤ → ℤ → ℤ → ℤ → Bytes
build_config_body option data0 data1 data2 data3 =
    byte option ∷ byte data0 ∷ byte data1 ∷ byte data2 ∷ byte data3 ∷ []

-- `SYNC_FLAG_TRIGGER_ARMED`
abbrev pub sync_flag_trigger_armed : ℤ
sync_flag_trigger_armed = pos 1

-- Three bytes of the 24-bit timestamp, the brightness, and the flags byte unless it is 0.
unfoldable pub build_sync_body : ℤ → ℤ → ℤ → Bytes
build_sync_body ts24 brightness flags =
    let ts = wrap 0x1000000 ts24 in
    let base = (ts % 256) ∷ (ts / 256 % 256) ∷ (ts / 65536 % 256) ∷ byte brightness ∷ [] in
    if byte flags == 0 then base else base ++ byte flags ∷ []

-- What a receiver reads from an OPC_SYNC body: timestamp, brightness, and flags, which are 0 in
-- the short form.
pub record SyncFields : Type 0 where
  pub ts24 : ℕ
  pub sync_brightness : ℕ
  pub sync_flags : ℕ

unfoldable pub read_sync : Bytes → Option SyncFields
read_sync (a ∷ b ∷ c ∷ d ∷ []) =
    some (record { ts24 = a + 256 * b + 65536 * c; sync_brightness = d; sync_flags = 0 })
read_sync (a ∷ b ∷ c ∷ d ∷ e ∷ []) =
    some (record { ts24 = a + 256 * b + 65536 * c; sync_brightness = d; sync_flags = e })
read_sync _ = none

three_bytes :
    (t : ℕ) → t < 0x1000000 → t % 256 + 256 * (t / 256 % 256) + 65536 * (t / 65536 % 256) ≡ t
three_bytes t h = omega arith

wrap24 : (v : ℤ) → wrap 0x1000000 v < 0x1000000
wrap24 (pos n) = omega arith
wrap24 (negsuc n) = omega arith

-- The timestamp modulo 2^24, the brightness and the flags are read back in both forms, and the
-- body has 4 bytes exactly when the flags byte is 0, else 5.
pub read_sync-build_sync_body :
    (ts24 brightness flags : ℤ)
    → (read_sync (build_sync_body ts24 brightness flags)
        ≡ some (record {
          ts24 = wrap 0x1000000 ts24;
          sync_brightness = byte brightness;
          sync_flags = byte flags;
        }))
      × (length (build_sync_body ts24 brightness flags) ≡ (if byte flags == 0 then 4 else 5))
unfolding build_sync_body read_sync
read_sync-build_sync_body ts24 brightness flags = elim (Bool-cases (byte flags == 0)) [
  | inl e ↦ (rw e (rw (three_bytes _ (wrap24 ts24), (==_iff (byte flags) 0).0 e) refl), rw e refl)
  | inr e ↦ (rw e (rw (three_bytes _ (wrap24 ts24)) refl), rw e refl)
]
