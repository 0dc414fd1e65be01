-- ===== src/Remote/Framing.antt =====
-- `write_framed` and `read_framed` of crates/shoestring-remote/src/lib.rs over a stream of bytes. A read
-- returns its result and what is left of the stream, since a session reads on after a message that it
-- does not know.
use shoestring_wm.Prelude.{
  ℕ, zero, suc, ◌≤◌, ◌<◌, ◌≡◌, refl, sym, false, List, [], ◌∷◌, ◌++◌, arith, length, u32,
  if◌then◌else◌, ltb, All, Bool-cases, inl, inr,
}
use mathlib.Core.List.{append_assoc, map}
use shoestring_wm.Remote.Error.{too_large, io, Result, ok, err, and_then, ok-injective}
use shoestring_wm.Remote.Bytes.{Bytes, put_u32}
use shoestring_wm.Remote.Reader.{get_u32, take_bytes, u32_read, take_bytes-append}

abbrev pub max_message_len : ℕ
max_message_len = 268435456

-- `read_exact` failing: what was left of the stream is gone.
abbrev pub or_io {ℓ} : {A : Type ℓ} → Result (A × Bytes) → Result (A × Bytes)
or_io (ok r) = ok r
or_io (err e) = err io

module _ {ℓ} {A : Type ℓ} (encode : A → Bytes) where
  unfoldable pub write_framed : A → Result Bytes
  write_framed m =
      let payload = encode m in
      if ltb max_message_len (length payload)
      then err (too_large (length payload))
      else ok (put_u32 (u32 (length payload)) ++ payload)

module _ {ℓ} {A : Type ℓ} (decode : Bytes → Result A) where
  abbrev pub decode_payload : Result (Bytes × Bytes) → Result A × Bytes
  decode_payload (ok (payload, rest)) = (decode payload, rest)
  decode_payload (err e) = (err io, [])

  abbrev pub read_payload : Result (ℕ × Bytes) → Result A × Bytes
  read_payload (ok (len, rest)) =
      if ltb max_message_len len
      then (err (too_large len), rest)
      else decode_payload (take_bytes len rest)
  read_payload (err e) = (err io, [])

  unfoldable pub read_framed : Bytes → Result A × Bytes
  read_framed stream = read_payload (get_u32 stream)

  -- A framed payload up to the limit is decoded as it is, whatever the decoder says of it, and the
  -- stream stands after it.
  pub read_framed_payload :
      (payload rest : Bytes)
      → length payload ≤ max_message_len
      → read_framed (put_u32 (length payload) ++ (payload ++ rest)) ≡ (decode payload, rest)
  unfolding read_framed
  read_framed_payload payload rest h =
      rw (u32_read (length payload) (omega arith) (payload ++ rest))
        (rw (within, take_bytes-append payload rest))
    where
      within : ltb max_message_len (length payload) ≡ false
      within = ground arith

  -- A length over the limit is refused before anything of the payload is read.
  pub read_framed_too_large :
      (len : ℕ) (rest : Bytes)
      → len < 4294967296
      → max_message_len < len
      → read_framed (put_u32 len ++ rest) ≡ (err (too_large len), rest)
  unfolding read_framed
  read_framed_too_large len rest h over = rw (u32_read len h rest) (ground arith)

  -- All messages of a stream, read one after the other.
  unfoldable pub read_each : ℕ → Bytes → List (Result A) × Bytes
  read_each zero stream = ([], stream)
  read_each (suc n) stream =
      let (m, rest) = read_framed stream in let (ms, rest') = read_each n rest in (m ∷ ms, rest')

module _ {ℓ} {A : Type ℓ} (encode : A → Bytes) (decode : Bytes → Result A) where
  -- The bytes of several messages in a row, if each may be written.
  unfoldable pub write_each : List A → Result Bytes
  write_each [] = ok []
  write_each (m ∷ ms) =
      and_then (write_framed encode m) λ b. and_then (write_each ms) λ bs. ok (b ++ bs)

  write_framed_ok :
      (m : A) (b : Bytes)
      → write_framed encode m ≡ ok b
      → (length (encode m) ≤ max_message_len) × (b ≡ put_u32 (length (encode m)) ++ encode m)
  unfolding write_framed
  write_framed_ok m b h = elim (Bool-cases (ltb max_message_len (length (encode m)))) [
    | inl over ↦ absurd (cc (rw over at h))
    | inr within ↦
        let fits : length (encode m) ≤ max_message_len = ground arith in
        let short : u32 (length (encode m)) ≡ length (encode m) = omega arith in
        (fits, sym (ok-injective (rw (within, short) at h)))
  ]

  write_each_cons :
      (m : A) (ms : List A) (b : Bytes)
      → write_each (m ∷ ms) ≡ ok b
      → (x : Bytes) × (y : Bytes) × (write_framed encode m ≡ ok x)
        × (write_each ms ≡ ok y)
        × (b ≡ x ++ y)
  unfolding write_each
  write_each_cons m ms b h = go (write_framed encode m) (write_each ms) refl refl h
    where
      go :
          (p : Result Bytes) (q : Result Bytes)
          → write_framed encode m ≡ p
          → write_each ms ≡ q
          → and_then p (λ x. and_then q λ y. ok (x ++ y)) ≡ ok b
          → (x : Bytes) × (y : Bytes) × (write_framed encode m ≡ ok x)
            × (write_each ms ≡ ok y)
            × (b ≡ x ++ y)
      go (err e) q hp hq h = absurd (cc h)
      go (ok x) (err e) hp hq h = absurd (cc h)
      go (ok x) (ok y) hp hq h = (x, y, hp, hq, sym (ok-injective h))

  -- Messages that were written one after the other are read back one after the other, and the
  -- stream stands after the last, where each is decoded from its own encoding.
  pub stream_roundtrip :
      (ms : List A) (b rest : Bytes)
      → All (λ m. decode (encode m) ≡ ok m) ms
      → write_each ms ≡ ok b
      → read_each decode (length ms) (b ++ rest) ≡ (map ok ms, rest)
  unfolding write_each read_each
  stream_roundtrip [] b rest d h = rw (← ok-injective h)
  stream_roundtrip (m ∷ ms) b rest d h =
      let (x, y, hx, hy, e) = write_each_cons m ms b h in
      let (fits, ex) = write_framed_ok m x hx in
      rw
        (
          e,
          append_assoc x y rest,
          ex,
          append_assoc (put_u32 (length (encode m))) (encode m) (y ++ rest),
        )
        (rw (read_framed_payload decode (encode m) (y ++ rest) fits)
          (rw (stream_roundtrip ms y rest d.1 hy) (rw d.0)))
