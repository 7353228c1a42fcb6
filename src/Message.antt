-- ===== src/Message.antt =====
-- src/message.rs: the commands, versions and headers of the ADB protocol.
pub mod RoundTrip
pub mod Checksum
pub mod Inverse
use muadib.Prelude.{
  ℕ, ◌+◌, ◌*◌, ◌%◌, ◌^◌, String, Bool, true, false, Option, none, some, [], ◌∷◌, ◌++◌, length, ltb,
  ◌==◌, if◌then◌else◌, bit_xor, Result, ok, err, Outcome, done, panic, length_out_of_range, ◌>>=◌,
  bytes,
}
use muadib.Prelude.Bytes.{Bytes, u32_bytes}
use muadib.Interface.Winnow.{Winnow, Parser}

abbrev pub a_cnxn : ℕ
a_cnxn = 0x4e58_4e43

abbrev pub a_auth : ℕ
a_auth = 0x4854_5541

abbrev pub a_open : ℕ
a_open = 0x4e45_504f

abbrev pub a_okay : ℕ
a_okay = 0x5941_4b4f

abbrev pub a_clse : ℕ
a_clse = 0x4553_4c43

abbrev pub a_wrte : ℕ
a_wrte = 0x4554_5257

abbrev pub a_stls : ℕ
a_stls = 0x534c_5453

pub data Command : Type 0 where
  cnxn auth opens okay clse wrte stls : Command

pub data CommandParsingError : Type 0 where
  unknown_command : ℕ → CommandParsingError

-- `TryFrom<u32> for Command`
unfoldable pub command_try_from : ℕ → Result CommandParsingError Command
command_try_from value =
    if value == a_cnxn
    then ok cnxn
    else if value == a_auth
    then ok auth
    else if value == a_open
    then ok opens
    else if value == a_okay
    then ok okay
    else if value == a_clse
    then ok clse
    else if value == a_wrte
    then ok wrte
    else if value == a_stls
    then ok stls
    else err (unknown_command value)

-- `From<Command> for u32`
abbrev pub command_to_u32 : Command → ℕ
command_to_u32 cnxn = a_cnxn
command_to_u32 auth = a_auth
command_to_u32 opens = a_open
command_to_u32 okay = a_okay
command_to_u32 clse = a_clse
command_to_u32 wrte = a_wrte
command_to_u32 stls = a_stls

-- `Display for Command`
unfoldable pub command_text : Command → String
command_text cnxn = "CNXN"
command_text auth = "AUTH"
command_text opens = "OPEN"
command_text okay = "OKAY"
command_text clse = "CLSE"
command_text wrte = "WRTE"
command_text stls = "STLS"

abbrev pub a_version_v0 : ℕ
a_version_v0 = 0x0100_0000

abbrev pub a_version_v1 : ℕ
a_version_v1 = 0x0100_0001

pub data ProtocolVersion : Type 0 where
  v0 v1 : ProtocolVersion

pub data ProtocolVersionError : Type 0 where
  unknown_version : ℕ → ProtocolVersionError

-- `From<ProtocolVersion> for u32`
abbrev pub version_to_u32 : ProtocolVersion → ℕ
version_to_u32 v0 = a_version_v0
version_to_u32 v1 = a_version_v1

-- `TryFrom<u32> for ProtocolVersion`
unfoldable pub version_try_from : ℕ → Result ProtocolVersionError ProtocolVersion
version_try_from v =
    if v == a_version_v0
    then ok v0
    else if v == a_version_v1
    then ok v1
    else err (unknown_version v)

abbrev pub max_payload : ProtocolVersion → ℕ
max_payload v0 = 4096
max_payload v1 = 1024 * 1024

abbrev pub requires_checksum : ProtocolVersion → Bool
requires_checksum v0 = true
requires_checksum v1 = false

abbrev pub protocol_version : ProtocolVersion
protocol_version = v1

pub record AdbHeader : Type 0 where
  pub command : Command
  pub arg0 : ℕ
  pub arg1 : ℕ
  pub data_length : ℕ
  pub data_check : ℕ
  pub magic : ℕ

-- `as_le_bytes` of the `repr(C)` struct: its fields in order.
unfoldable pub header_bytes : AdbHeader → Bytes
header_bytes h =
    u32_bytes (command_to_u32 h.command)
    ++ (u32_bytes h.arg0
        ++ (u32_bytes h.arg1
            ++ (u32_bytes h.data_length ++ (u32_bytes h.data_check ++ u32_bytes h.magic))))

-- The `u32` sum, which wraps in a release build.
unfoldable pub checksum_from : ℕ → Bytes → ℕ
checksum_from acc [] = acc
checksum_from acc (b ∷ data') = checksum_from ((acc + b) % 2 ^ 32) data'

unfoldable pub checksum : Bytes → ℕ
checksum data' = checksum_from 0 data'

-- `Result::ok`
abbrev pub ok? {ℓ} : {E A : Type ℓ} → Result E A → Option A
ok? (ok a) = some a
ok? (err e) = none

abbrev pub inverse : ℕ → ℕ
inverse value = bit_xor value 0xffff_ffff

abbrev pub check_magic : Command × ℕ × ℕ × ℕ × ℕ × ℕ → Option AdbHeader
check_magic (command, arg0, arg1, data_length, data_check, magic) =
    if magic == inverse (command_to_u32 command)
    then some (record {
      command = command;
      arg0 = arg0;
      arg1 = arg1;
      data_length = data_length;
      data_check = data_check;
      magic = magic;
    })
    else none

module _ (w : Winnow) where
  abbrev pub parse_command : Parser Command
  parse_command = w.verify_map w.le_u32 (λ v. ok? (command_try_from v))

  abbrev pub parse_words : Parser (Command × ℕ × ℕ × ℕ × ℕ × ℕ)
  parse_words = w.seq_six parse_command w.le_u32 w.le_u32 w.le_u32 w.le_u32 w.le_u32

  unfoldable pub parse_header : Parser AdbHeader
  parse_header = w.verify_map parse_words check_magic

abbrev pub checksum_for : ProtocolVersion → Bytes → ℕ
checksum_for host_version payload = if requires_checksum host_version then checksum payload else 0

unfoldable pub header_from_payload : ProtocolVersion → Command → ℕ → ℕ → Bytes → Outcome AdbHeader
header_from_payload host_version command arg0 arg1 payload =
    if ltb (length payload) (2 ^ 32)
    then done (record {
      command = command;
      arg0 = arg0;
      arg1 = arg1;
      data_length = length payload;
      data_check = checksum_for host_version payload;
      magic = inverse (command_to_u32 command);
    })
    else panic length_out_of_range

abbrev pub cnxn_header : ProtocolVersion → Bytes → Outcome AdbHeader
cnxn_header host_version payload =
    header_from_payload host_version cnxn (version_to_u32 protocol_version)
      (max_payload protocol_version) payload

abbrev pub okay_header : ProtocolVersion → ℕ → ℕ → Outcome AdbHeader
okay_header peer local_id remote_id = header_from_payload peer okay local_id remote_id []

abbrev pub wrte_header : ProtocolVersion → ℕ → ℕ → Bytes → Outcome AdbHeader
wrte_header peer local_id remote_id payload =
    header_from_payload peer wrte local_id remote_id payload

abbrev pub clse_header : ProtocolVersion → ℕ → ℕ → Outcome AdbHeader
clse_header peer local_id remote_id = header_from_payload peer clse local_id remote_id []

-- src/device_info.rs: the identity that CNXN advertises.
pub record DeviceInfo : Type 0 where
  pub serial : Bytes
  pub name : Bytes
  pub model : Bytes
  pub device : Bytes

unfoldable pub identity : DeviceInfo → Bytes
identity info =
    bytes "device::ro.product.name="
    ++ (info.name
        ++ (bytes ";ro.product.model="
            ++ (info.model ++ (bytes ";ro.product.device=" ++ (info.device ++ (b';' ∷ 0 ∷ []))))))

unfoldable pub cnxn_response : ProtocolVersion → DeviceInfo → Outcome (AdbHeader × Bytes)
unfolding identity
cnxn_response peer info = do header ← cnxn_header peer (identity info); done (header, identity info)
