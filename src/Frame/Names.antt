-- ===== src/Frame/Names.antt =====
-- The rest of src/awdl/frame.rs: the names of frames and TLVs for the log, and the header of a TLV.
use cosmicdrop.Base.{ℕ, ◌+◌, ◌==◌, if◌then◌else◌, List, [], ◌∷◌}
use cosmicdrop.Text.{codes}
use cosmicdrop.Wire.{WireResult, ok, err, panic, assign, write_le16, ◌>>=◌}

pub data AwdlActionType : Type 0 where
  psf : AwdlActionType
  mif : AwdlActionType

-- `AwdlActionType as u8`.
unfoldable pub action_type_number : AwdlActionType → ℕ
action_type_number psf = 0
action_type_number mif = 3

unfoldable pub awdl_frame_as_str : ℕ → List ℕ
awdl_frame_as_str t =
    if t == 0 then codes "PSF" else (if t == 3 then codes "MIF" else codes "Unknown")

-- The arms of a match on numbers.
abbrev pub match_number : ℕ → List (ℕ × List ℕ) → List ℕ → List ℕ
match_number t [] default = default
match_number t ((n, name) ∷ arms) default =
    let later = match_number t arms default in if t == n then name else later

unfoldable pub awdl_tlv_as_str : ℕ → List ℕ
awdl_tlv_as_str t =
    match_number t
      ((0, codes "SSTH Request")
        ∷ (1, codes "Service Request")
        ∷ (2, codes "Service Response")
        ∷ (4, codes "Synchronization Parameters")
        ∷ (5, codes "Election Parameters")
        ∷ (6, codes "Service Parameters")
        ∷ (7, codes "HT Capabilities")
        ∷ (8, codes "HT Operation")
        ∷ (9, codes "Infra")
        ∷ (10, codes "Invite")
        ∷ (11, codes "Debug String")
        ∷ (12, codes "Data Path State")
        ∷ (13, codes "Encapsulated IP")
        ∷ (14, codes "Datapath Debug Packet Live")
        ∷ (15, codes "Datapath Debug AF Live")
        ∷ (16, codes "Arpa")
        ∷ (17, codes "VHT Capabilities")
        ∷ (18, codes "Channel Sequence")
        ∷ (20, codes "Synchronization Tree")
        ∷ (21, codes "Version")
        ∷ (22, codes "Bloom Filter")
        ∷ (23, codes "NAN Sync")
        ∷ (24, codes "Election Parameters v2")
        ∷ [])
      (codes "Unknown")

-- `.expect(..)` on the write of the length.
abbrev pub expect_written : ℕ → WireResult (List ℕ) → WireResult (ℕ × List ℕ)
expect_written n (ok buf) = ok (n, buf)
expect_written n err = panic
expect_written n panic = panic

-- The number of bytes of the TLV with its header, and the buffer.
unfoldable pub write_tlv_header : List ℕ → ℕ → ℕ → ℕ → WireResult (ℕ × List ℕ)
write_tlv_header buf offset tlv_type len = do
  typed ← assign buf offset tlv_type
  expect_written (3 + len) (write_le16 typed (offset + 1) len)
