-- ===== src/Comm/Header/Laws.antt =====
-- A message falls into its header and its payload.
use ungula_lib_net.Base.{
  ℕ, ◌<◌, ◌≡◌, false, List, ◌++◌, none, some, arith, length, ◌==◌, if◌then◌else◌,
}
use ungula_lib_net.Comm.Header.{
  MessageHeader, encode, is_valid_header, extract_header, extract_payload, payload_length,
}

-- A message that starts with a header is taken apart into that header and what follows it, and is
-- valid for the header's version alone; an empty payload is a null pointer of length 0. A buffer that
-- is shorter than a header has none, no payload, and no version for which it is valid.
pub message_splits :
    (h : MessageHeader) (payload short : List ℕ) (version : ℕ)
    → length short < 8
    → let bytes = encode h ++ payload in
      (extract_header bytes ≡ some h)
      × (extract_payload bytes ≡ (if length payload == 0 then none else some payload))
      × (payload_length (length bytes) ≡ length payload)
      × (is_valid_header bytes version ≡ (h.protocol_version == version))
      × (extract_header short ≡ none)
      × (extract_payload short ≡ none)
      × (payload_length (length short) ≡ 0)
      × (is_valid_header short version ≡ false)
unfolding encode extract_header extract_payload payload_length is_valid_header
message_splits h payload short version less = ground arith
