-- ===== src/Protocol/Records.antt =====
-- The 64-byte records are read back as they were written.
use pi86_rp.Common.{
  ℕ, suc, ◌+◌, ◌-◌, ◌^◌, ◌≤◌, ◌<◌, ◌≡◌, refl, sym, ap, ◌∙◌, true, [], ◌++◌, append-nil, arith, ◌==◌,
  Bytes, length, take, replicate, IsBytes, ljust, length-take, take-append_exact, length-ljust,
  >>=-eq-ok, guard-eq-ok, ok,
}
use pi86_rp.Struct.{Fields, fits, layout, pack, unpack}
use pi86_rp.Struct.RoundTrip.{
  length-layout, cut_exact, pack-eq-ok, pack-fits, length-pack, unpack-pack, pack-unpack,
  unpack-IsExact,
}
use pi86_rp.Protocol.{
  protocol_version, payload_size, message_size, message_format, encode, decode, Message,
}

abbrev message_fields : Message → Fields message_format
message_fields m = (
  m.version,
  (
    m.message_type,
    (m.flags, (m.sequence, (length m.payload, (m.status, (ljust payload_size m.payload, tt))))),
  ),
)

-- What a successful encoding says.
encode-eq-ok :
    (m : Message) {r : Bytes}
    → encode m ≡ ok r
    → (m.version ≡ 1) × (length m.payload ≤ 52) × (pack message_format (message_fields m) ≡ ok r)
unfolding encode
encode-eq-ok m h = ground arith

message_fields_exact :
    (m : Message) → length m.payload ≤ 52 → length (ljust payload_size m.payload) ≡ 52
message_fields_exact m h = length-ljust 52 m.payload h

-- A record that `encode` produced is decoded to the message that it came from.
pub decode-encode : (m : Message) (r : Bytes) → encode m ≡ ok r → decode r ≡ ok m
unfolding decode
decode-encode m r h =
    let (v, l, p) = encode-eq-ok m h in
    ground (
      arith,
      length-pack message_format (message_fields m) p,
      unpack-pack message_format (message_fields m) p (message_fields_exact m l, tt),
      take-append_exact (length m.payload) m.payload (replicate (52 - length m.payload) 0) refl,
    )

-- Every field is in the range of its column, and the payload fits.
pub record IsWire (m : Message) : Type 0 where
  pub supported : m.version ≡ protocol_version
  pub type_range : m.message_type < 256
  pub flags_range : m.flags < 65536
  pub sequence_range : m.sequence < 2 ^ 32
  pub status_range : m.status < 65536
  pub payload_range : length m.payload ≤ payload_size

-- A message whose fields are in range has a record of 64 bytes, which is decoded to the message.
pub encode_total :
    (m : Message)
    → IsWire m
    → (r : Bytes) × (encode m ≡ ok r) × (length r ≡ message_size) × (decode r ≡ ok m)
unfolding encode fits
encode_total m w =
    let fit : fits message_format (message_fields m) ≡ true = ground arith in
    let e : encode m ≡ ok (layout message_format (message_fields m)) =
      ground (arith, pack-fits message_format (message_fields m) fit) in
    (
      layout message_format (message_fields m),
      e,
      length-layout message_format (message_fields m),
      decode-encode m _ e,
    )

-- A message that is encoded has its fields in range.
pub encode-IsWire : (m : Message) (r : Bytes) → encode m ≡ ok r → IsWire m
unfolding fits
encode-IsWire m r h =
    let (v, l, p) = encode-eq-ok m h in
    let (fit, _) = pack-eq-ok message_format (message_fields m) p in ground arith

-- The record with the bytes behind the payload cleared.
abbrev pub cleared : ℕ → Bytes → Bytes
cleared n r = take (12 + n) r ++ replicate (52 - n) 0

pub decode-eq-ok :
    (r : Bytes) {m : Message}
    → decode r ≡ ok m
    → (len : ℕ) × (t : Bytes) × (len ≤ 52)
      × (m.version ≡ 1)
      × (m.payload ≡ take len t)
      × (unpack message_format r
          ≡ ok (m.version, (m.message_type, (m.flags, (m.sequence, (len, (m.status, (t, tt))))))))
unfolding decode
decode-eq-ok r h =
    let (_, h1) = guard-eq-ok (length r == message_size) _ _ h in
    let (v, u, h2) = >>=-eq-ok (unpack message_format r) _ h1 in
    (v.1.1.1.1.0, v.1.1.1.1.1.1.0, ground arith, ground arith, ground arith, ground arith)

payload_column :
    (len : ℕ) (t : Bytes)
    → length t ≡ 52
    → len ≤ 52
    → (take 52 (ljust 52 (take len t)) ++ replicate (52 - length (ljust 52 (take len t))) 0) ++ []
      ≡ take len ((take 52 t ++ replicate (52 - length t) 0) ++ []) ++ replicate (52 - len) 0
payload_column len t e h =
    let l : length (take len t) ≡ len = omega (arith, length-take len t) in
    rw
      (
        cut_exact 52 t e,
        cut_exact 52 (ljust 52 (take len t)) (length-ljust 52 (take len t) (omega arith)),
      )
      (rw (append-nil, append-nil) (ap (λ (n : ℕ). take len t ++ replicate (52 - n) 0) l))

reencode :
    (v mt fl sq len st : ℕ) (t : Bytes)
    → length t ≡ 52
    → len ≤ 52
    → layout message_format (v, (mt, (fl, (sq, (len, (st, (ljust 52 (take len t), tt)))))))
      ≡ cleared len (layout message_format (v, (mt, (fl, (sq, (len, (st, (t, tt))))))))
unfolding layout
reencode v mt fl sq len st t e h =
    let twelve : 12 + len
        ≡ suc (suc (suc (suc (suc (suc (suc (suc (suc (suc (suc (suc len))))))))))) =
      omega arith in
    rw (twelve, payload_column len t e h) refl

encode-layout :
    (m : Message)
    → m.version ≡ 1
    → length m.payload ≤ 52
    → fits message_format (message_fields m) ≡ true
    → encode m ≡ ok (layout message_format (message_fields m))
unfolding encode
encode-layout m v l fit = ground (arith, pack-fits message_format (message_fields m) fit)

same_fit :
    (m : Message) (len : ℕ) (t : Bytes)
    → fits message_format
        (m.version, (m.message_type, (m.flags, (m.sequence, (len, (m.status, (t, tt)))))))
      ≡ true
    → length m.payload ≡ len
    → fits message_format (message_fields m) ≡ true
unfolding fits
same_fit m len t fit e = ground arith

-- A record of bytes that is accepted is encoded again, up to the bytes behind the payload.
pub encode-decode :
    (r : Bytes) (m : Message)
    → IsBytes r
    → decode r ≡ ok m
    → encode m ≡ ok (cleared (length m.payload) r)
encode-decode r m b h =
    let (len, t, bound, v, p, u) = decode-eq-ok r h in
    let whole : layout message_format
          (m.version, (m.message_type, (m.flags, (m.sequence, (len, (m.status, (t, tt)))))))
        ≡ r =
      (pack-eq-ok _ _ (pack-unpack message_format r _ tt b u)).1 in
    let fit = (pack-eq-ok _ _ (pack-unpack message_format r _ tt b u)).0 in
    let width : length t ≡ 52 = (unpack-IsExact message_format r u).0 in
    let size_eq : length m.payload ≡ len = rw p (omega (arith, length-take len t)) in
    let again = reencode m.version m.message_type m.flags m.sequence len m.status t width bound in
    let fields_eq : layout message_format (message_fields m)
        ≡ layout message_format (
          m.version,
          (m.message_type, (m.flags, (m.sequence, (len, (m.status, (ljust 52 (take len t), tt)))))),
        ) =
      λ i. layout message_format (
        m.version,
        (m.message_type, (m.flags, (m.sequence, (size_eq i, (m.status, (ljust 52 (p i), tt)))))),
      ) in
    encode-layout m v (omega arith) (same_fit m len t fit size_eq)
    ∙ ap ok (fields_eq ∙ again ∙ ap (cleared len) whole ∙ ap (λ (n : ℕ). cleared n r) (sym size_eq))
