-- ===== src/Comm/Header.antt =====
-- src/comm/message_header.h. A buffer and its length are a list of bytes.
pub mod Laws
use ungula_lib_net.Base.{
  ℕ, ◌-◌, Bool, true, false, List, [], ◌∷◌, Option, none, some, ltb, leb, ◌==◌, if◌then◌else◌,
  length, get_or, drop,
}

pub record MessageHeader : Type 0 where
  pub protocol_version : ℕ
  pub message_type : ℕ
  pub source_device_id : ℕ
  pub sequence_number : ℕ
  pub flags : ℕ
  pub reserved0 : ℕ
  pub reserved1 : ℕ
  pub reserved2 : ℕ

abbrev pub header_size : ℕ
header_size = 8

-- The packed struct as bytes, and bytes read as the struct.
unfoldable pub encode : MessageHeader → List ℕ
encode h =
    h.protocol_version ∷ h.message_type ∷ h.source_device_id ∷ h.sequence_number ∷ h.flags
    ∷ h.reserved0 ∷ h.reserved1 ∷ h.reserved2 ∷ []

unfoldable pub parse : List ℕ → MessageHeader
parse bytes = record {
  protocol_version = get_or bytes 0 0;
  message_type = get_or bytes 1 0;
  source_device_id = get_or bytes 2 0;
  sequence_number = get_or bytes 3 0;
  flags = get_or bytes 4 0;
  reserved0 = get_or bytes 5 0;
  reserved1 = get_or bytes 6 0;
  reserved2 = get_or bytes 7 0;
}

unfoldable pub is_valid_header : List ℕ → ℕ → Bool
unfolding parse
is_valid_header bytes expected_version =
    if ltb (length bytes) header_size
    then false
    else (parse bytes).protocol_version == expected_version

-- `none` is a null pointer.
unfoldable pub extract_header : List ℕ → Option MessageHeader
unfolding parse
extract_header bytes = if ltb (length bytes) header_size then none else some (parse bytes)

unfoldable pub extract_payload : List ℕ → Option (List ℕ)
extract_payload bytes =
    if leb (length bytes) header_size then none else some (drop header_size bytes)

unfoldable pub payload_length : ℕ → ℕ
payload_length total_len = if leb total_len header_size then 0 else total_len - header_size
