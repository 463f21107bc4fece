-- ===== src/Pipeline/Messages/Roundtrip.antt =====
-- Encoding and decoding of stage messages.
use ragent.Common.{
  ℕ, ◌≤◌, String, ◌≡◌, inl, inr, false, Option, none, some, arith, str_eq, Option-cases,
}
use ragent.Ingest.Formats.{family_of-family_value}
use ragent.Pipeline.Json.{Json, obj}
use ragent.Pipeline.Messages.{
  StageMessage, Codec, ok, malformed, undecodable, payload, from_payload, to_bytes, from_bytes,
  read_attempt,
}

module _ (render : Json → String) (fresh : String) where
  from_payload-payload :
      (m : StageMessage)
      → 1 ≤ m.attempt
      → str_eq m.trace_id "" ≡ false
      → from_payload render fresh (obj (payload m)) ≡ ok m
  unfolding from_payload payload
  from_payload-payload m counted traced = ground (arith, family_of-family_value m.family)

  read_attempt_pos : (o : Option Json) (n : ℕ) → read_attempt o ≡ ok n → 1 ≤ n
  unfolding read_attempt
  read_attempt_pos o n h = ground arith

  from_payload-counted :
      (v : Json) (m : StageMessage) → from_payload render fresh v ≡ ok m → 1 ≤ m.attempt
  unfolding from_payload
  from_payload-counted v m h = ground (arith)

  module _ (codec : Codec) where
    open codec use {Bytes, dumps, loads}

    -- A message that counts its attempts from 1 and has a trace id is decoded from its own bytes
    -- unchanged, if `json.loads` reads back what `json.dumps` wrote for it.
    pub from_bytes-to_bytes :
        (m : StageMessage)
        → 1 ≤ m.attempt
        → str_eq m.trace_id "" ≡ false
        → loads (dumps (obj (payload m))) ≡ some (obj (payload m))
        → from_bytes render codec fresh (to_bytes render codec m) ≡ ok m
    unfolding from_bytes to_bytes
    from_bytes-to_bytes m counted traced reads_back =
        rw (reads_back, from_bytes) (from_payload-payload m counted traced)

    unreadable :
        {raw : Bytes} (m : StageMessage)
        → loads raw ≡ none
        → from_bytes render codec fresh raw ≡ ok m
        → ⊥
    unfolding from_bytes
    unreadable m e h = cc (rw (e, from_bytes) at h)

    -- Whatever the bytes and whatever `json.loads` makes of them, a message that is accepted has an
    -- attempt count of at least 1, and one that `json.loads` cannot read is malformed.
    pub from_bytes_guards :
        (raw : Bytes)
        → ((m : StageMessage) → from_bytes render codec fresh raw ≡ ok m → 1 ≤ m.attempt)
          × (loads raw ≡ none → from_bytes render codec fresh raw ≡ malformed undecodable)
    unfolding from_bytes
    from_bytes_guards raw = (
      λ m h. elim (Option-cases (loads raw)) [
        | inl e ↦ absurd (unreadable m e h)
        | inr (v, e) ↦ from_payload-counted v m (rw (e, from_bytes) at h)
      ],
      λ e. rw (e, from_bytes),
    )
