-- ===== src/Offload/RoundTrip.antt =====
-- A header that was built is identified.
use lightway_cffi.Base.{
  take_all, ℕ, zero, suc, ◌≤◌, ◌≡◌, ◌≢◌, refl, sym, ap, ◌∙◌, true, false, some, List, [], ◌∷◌, ◌++◌,
  arith, ltb, leb, ◌==◌, if◌then◌else◌, length, take, drop, replicate, take-length-append,
}
use lightway_cffi.Capi.{ffi_guard}
use lightway_cffi.Client.{he_success, he_err_bad_param}
use lightway_cffi.Client.Core.{Core, Live, Client}
use lightway_cffi.Client.Lock.{set_owner, lock_client}
use lightway_cffi.Offload.{
  PacketKind, expresslane, Header, HeaderFormat, HeaderFormatLaws, wire_size, identify_packet,
  identify_body, kind_of, build_expresslane_header, build_end, header_of,
}

module _ (format : HeaderFormat) (laws : HeaderFormatLaws format) (C : Core) (live : Live C)
    (sid : List ℕ) (es : length sid ≡ 8) where
  abbrev hdr : Header
  hdr = record {
    version = C.tunnel_protocol_version live.core;
    aggressive_mode = false;
    expresslane_data = true;
    session = sid;
  }

  drop_all : (xs : List ℕ) (n : ℕ) → length xs ≡ n → drop n xs ≡ []
  drop_all [] zero h = refl
  drop_all [] (suc n) h = refl
  drop_all (x ∷ xs) zero h = absurd (omega arith)
  drop_all (x ∷ xs) (suc n) h = drop_all xs n (omega arith)

  append_empty : (xs : List ℕ) → xs ++ [] ≡ xs
  append_empty [] = refl
  append_empty (x ∷ xs) = ap (◌∷◌ x) (append_empty xs)

  built :
      (me : ℕ) (client : Client C) (out : List ℕ)
      → client.connection ≡ some live
      → client.conn.lock_owner ≢ me
      → format.is_reserved sid ≡ false
      → build_expresslane_header format C me (some client) (some sid) (some out)
        ≡ (some (format.append_to_wire hdr ++ drop wire_size out), he_success)
  unfolding build_expresslane_header build_end header_of ffi_guard lock_client set_owner
  built me client out conn free usable =
      ap
        (λ s.
          if format.is_reserved s
          then (some out, he_err_bad_param)
          else build_end format (some out)
              (lock_client C me (some client) (λ c. (c, header_of format C s c.connection))).1)
        (take_all sid 8 (sym es))
      ∙ rw (usable, not_owner, conn) (rw (long) (ap (λ bytes. (some bytes, he_success)) copied))
    where
      not_owner : (client.conn.lock_owner == me) ≡ false
      not_owner = ground arith

      long : leb wire_size (length (format.append_to_wire hdr)) ≡ true
      long = ground (arith, laws.length-append_to_wire hdr es)

      copied :
          take wire_size (format.append_to_wire hdr)
            ++ drop (length (take wire_size (format.append_to_wire hdr))) out
          ≡ format.append_to_wire hdr ++ drop wire_size out
      copied =
          ap (λ b. b ++ drop (length b) out)
            (take_all (format.append_to_wire hdr) wire_size
              (sym (laws.length-append_to_wire hdr es)))
          ∙ ap (λ n. format.append_to_wire hdr ++ drop n out) (laws.length-append_to_wire hdr es)

  identified :
      (payload sid_out : List ℕ) (n : ℕ) (kind : PacketKind) (len : ℕ)
      → wire_size ≤ n
      → length sid_out ≡ 8
      → identify_packet format
          (some (format.append_to_wire hdr ++ payload))
          n
          (some kind)
          (some sid_out)
          (some len)
        ≡ record {
          kind = some expresslane;
          session_id = some sid;
          header_len = some wire_size;
          code = he_success;
        }
  unfolding identify_packet identify_body kind_of ffi_guard
  identified payload sid_out n kind len long eo =
      rw (not_short, parsed)
        (ap
          (λ s. record {
            kind = some expresslane;
            session_id = some s;
            header_len = some wire_size;
            code = he_success;
          })
          (ap (λ k. sid ++ drop k (replicate 8 0 ++ drop 8 sid_out)) es
            ∙ ap (λ r. sid ++ r) (drop_all sid_out 8 eo)
            ∙ append_empty sid))
    where
      not_short : ltb n wire_size ≡ false
      not_short = ground arith

      parsed :
          format.try_from_wire (take wire_size (format.append_to_wire hdr ++ payload)) ≡ some hdr
      parsed =
          ap format.try_from_wire (
            take-length-append (format.append_to_wire hdr) payload wire_size
              (sym (laws.length-append_to_wire hdr es)))
          ∙ laws.try_from_wire-append_to_wire hdr es

  -- With a connection, the lock free for the caller and a session id that is not reserved, the
  -- header is written in front of whatever stands behind it; and a datagram that starts with it is
  -- identified as an ExpressLane packet of that session, whatever its payload is.
  pub build-identify :
      (me : ℕ) (client : Client C) (out payload sid_out : List ℕ) (n : ℕ) (kind : PacketKind)
      (len : ℕ)
      → client.connection ≡ some live
      → client.conn.lock_owner ≢ me
      → format.is_reserved sid ≡ false
      → wire_size ≤ n
      → length sid_out ≡ 8
      → (bytes : List ℕ) × (length bytes ≡ wire_size)
        × (build_expresslane_header format C me (some client) (some sid) (some out)
            ≡ (some (bytes ++ drop wire_size out), he_success))
        × (identify_packet format (some (bytes ++ payload)) n (some kind) (some sid_out) (some len)
            ≡ record {
              kind = some expresslane;
              session_id = some sid;
              header_len = some wire_size;
              code = he_success;
            })
  build-identify me client out payload sid_out n kind len conn free usable long eo = (
    format.append_to_wire hdr,
    laws.length-append_to_wire hdr es,
    built me client out conn free usable,
    identified payload sid_out n kind len long eo,
  )
