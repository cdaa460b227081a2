-- ===== src/Volume/Names/RoundTrip.antt =====
-- A stored name, or a stored link target, stands for the bytes that were stored.
use argos_fs.Common.Bytes.{bytes_of, strip_prefix, starts_with, is_utf8}
use argos_fs.Common.{
  ℕ, ◌≡◌, refl, ◌∙◌, false, ◌||◌, List, [], ◌∷◌, ◌++◌, Option, none, some, any, ◌==◌, ==_iff,
  if◌then◌else◌, if_cases, arith,
}
use argos_fs.Error.{ok, >>-eq-ok, ok-injective}
use argos_fs.Volume.Names.{
  non_utf8_name_prefix, escaped_utf8_name_prefix, legacy_non_utf8_name_prefix,
  non_utf8_symlink_target_prefix, is_separator, validate_entry_name, validate_entry_name_bytes,
  encoded_name, entry_name_from_os, encode_symlink_target, decoded_or, decode_by,
  decode_entry_name_bytes, decode_symlink_target_bytes,
}

not_prefix : (p bs : List ℕ) → starts_with p bs ≡ false → strip_prefix p bs ≡ none
not_prefix p bs h = ground arith

-- What holds no zero byte begins with no prefix that starts with one.
no_zero : (ps bs : List ℕ) → any is_separator bs ≡ false → strip_prefix (0 ∷ ps) bs ≡ none
no_zero ps [] h = refl
no_zero ps (b ∷ bs) h = ground arith

no_zero_byte : (ps bs : List ℕ) → any (λ b. b == 0) bs ≡ false → strip_prefix (0 ∷ ps) bs ≡ none
no_zero_byte ps [] e = refl
no_zero_byte ps (b ∷ bs) e = ground arith

strip_prefix-append : (p bs : List ℕ) → strip_prefix p (p ++ bs) ≡ some bs
strip_prefix-append [] bs = refl
strip_prefix-append (b ∷ p) bs = ground (arith, strip_prefix-append p bs, ==_iff b b)

module _ (hex_encode : List ℕ → List ℕ) (hex_decode : List ℕ → Option (List ℕ))
    (hex_round_trip : (bs : List ℕ) → hex_decode (hex_encode bs) ≡ some bs) where
  valid_has_no_separator :
      (name : List ℕ) → validate_entry_name_bytes name ≡ ok tt → any is_separator name ≡ false
  unfolding validate_entry_name_bytes
  valid_has_no_separator name h = ground (arith, h)

  decode_by-none :
      (prefix : List ℕ) (rest : List (List ℕ)) (name : List ℕ)
      → strip_prefix prefix name ≡ none
      → decode_by hex_decode (prefix ∷ rest) name ≡ decode_by hex_decode rest name
  unfolding decode_by
  decode_by-none prefix rest name h = ground (arith, h)

  decode_by-strip :
      (prefix : List ℕ) (rest : List (List ℕ)) (name : List ℕ)
      → decode_by hex_decode (prefix ∷ rest) (prefix ++ hex_encode name) ≡ name
  unfolding decode_by
  decode_by-strip prefix rest name =
      ground (arith, strip_prefix-append prefix (hex_encode name), hex_round_trip name)

  decode_by-nil : (name : List ℕ) → decode_by hex_decode [] name ≡ name
  unfolding decode_by
  decode_by-nil name = refl

  -- A name without a prefix of the stored forms is its own stored form.
  plain_name :
      (name : List ℕ)
      → any is_separator name ≡ false
      → (starts_with non_utf8_name_prefix name || starts_with escaped_utf8_name_prefix name) ≡ false
      → decode_entry_name_bytes hex_decode name ≡ name
  unfolding decode_entry_name_bytes
  plain_name name h e =
      decode_by-none escaped_utf8_name_prefix _ name
        (not_prefix escaped_utf8_name_prefix name (ground (arith, e)))
      ∙ decode_by-none non_utf8_name_prefix _ name
          (not_prefix non_utf8_name_prefix name (ground (arith, e)))
      ∙ decode_by-none legacy_non_utf8_name_prefix _ name
          (no_zero (bytes_of "argosfs-name-hex:") name h)
      ∙ decode_by-nil name

  escaped_name :
      (name : List ℕ)
      → decode_entry_name_bytes hex_decode (escaped_utf8_name_prefix ++ hex_encode name) ≡ name
  unfolding decode_entry_name_bytes
  escaped_name name = decode_by-strip escaped_utf8_name_prefix _ name

  non_utf8_name :
      (name : List ℕ)
      → decode_entry_name_bytes hex_decode (non_utf8_name_prefix ++ hex_encode name) ≡ name
  unfolding decode_entry_name_bytes
  non_utf8_name name =
      decode_by-none escaped_utf8_name_prefix _ (non_utf8_name_prefix ++ hex_encode name) refl
      ∙ decode_by-strip non_utf8_name_prefix _ name

  decode-encoded_name :
      (name : List ℕ)
      → any is_separator name ≡ false
      → decode_entry_name_bytes hex_decode (encoded_name hex_encode name) ≡ name
  decode-encoded_name name h =
      let P : List ℕ → Type 0 = λ stored. decode_entry_name_bytes hex_decode stored ≡ name in
      if_cases P (is_utf8 name)
        (λ u.
          if_cases P
            (starts_with non_utf8_name_prefix name || starts_with escaped_utf8_name_prefix name)
            (λ e. escaped_name name) (λ e. plain_name name h e))
        (λ u. non_utf8_name name)

  -- The stored form of a name that is accepted is decoded to the bytes of the name, so that two
  -- names never share a stored form, where `hex_decode` reads back what `hex_encode` wrote.
  pub decode_entry_name_bytes-entry_name_from_os :
      (name stored : List ℕ)
      → entry_name_from_os hex_encode name ≡ ok stored
      → decode_entry_name_bytes hex_decode stored ≡ name
  unfolding entry_name_from_os
  decode_entry_name_bytes-entry_name_from_os name stored h =
      let (v, h1) = >>-eq-ok (validate_entry_name_bytes name) _ h in
      let (u, h2) = >>-eq-ok (if is_utf8 name then validate_entry_name name else ok tt) _ h1 in
      rw⁻¹ (ok-injective h2) (decode-encoded_name name (valid_has_no_separator name v))

  symlink_none :
      (target : List ℕ)
      → strip_prefix non_utf8_symlink_target_prefix target ≡ none
      → decode_symlink_target_bytes hex_decode target ≡ target
  unfolding decode_symlink_target_bytes
  symlink_none target h = ground (arith, h)

  symlink_some :
      (target : List ℕ)
      → decode_symlink_target_bytes hex_decode (non_utf8_symlink_target_prefix ++ hex_encode target)
        ≡ target
  unfolding decode_symlink_target_bytes
  symlink_some target = hex_round_trip_or target
    where
      hex_round_trip_or :
          (target : List ℕ)
          → decoded_or hex_decode
              (non_utf8_symlink_target_prefix ++ hex_encode target)
              (hex_decode (hex_encode target))
            ≡ target
      hex_round_trip_or target = rw (hex_round_trip target) refl

  -- A link target without a zero byte, UTF-8 or not, is read back, where `hex_decode` reads back what
  -- `hex_encode` wrote.
  pub decode_symlink_target_bytes-encode_symlink_target :
      (target : List ℕ)
      → any (λ b. b == 0) target ≡ false
      → decode_symlink_target_bytes hex_decode (encode_symlink_target hex_encode target) ≡ target
  unfolding encode_symlink_target
  decode_symlink_target_bytes-encode_symlink_target target h =
      if_cases (λ stored. decode_symlink_target_bytes hex_decode stored ≡ target) (is_utf8 target)
        (λ u. symlink_none target (no_zero_byte (bytes_of "argosfs-symlink-target-hex:") target h))
        (λ u. symlink_some target)
