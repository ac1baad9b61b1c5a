-- ===== src/Mqttpb/Codec/RoundTrip.antt =====
-- A message that one side's codec marshals is the message that the other side's codec unmarshals.
use go_reverse_rpc.Base.{
  ℕ, List, All, ◌<◌, ℤ, suc, ◌≡◌, ◌≢◌, refl, ap, ◌∙◌, inl, inr, Option-cases, Option, none, some,
  [], ◌∷◌, Bytes, arith, length, take, take-length,
}
use go_reverse_rpc.Base.Int.{ℤ_eq}
use go_reverse_rpc.Errors.{ok}
use go_reverse_rpc.Compressor.{
  ContentEncoding, Algorithms, compress, decompress, gzip_decompress, zlib_decompress,
  brotli_decompress,
}
use go_reverse_rpc.Compressor.Buffers.{Buffer, Manager, read_slice}
use go_reverse_rpc.Compressor.Writes.{IsValid, update_self}
use go_reverse_rpc.Compressor.RoundTrip.{
  AllLossless, IsKnown, Apart, pool_mono, decompress-compress,
}
use go_reverse_rpc.Mqttpb.Messages.{
  SameRequest, SameResponse, FaithfulRequests, FaithfulResponses, revalue-IsRequest,
  revalue-IsResponse, IsResponse, IsRequest, Any, Request, Response, Wire, drop_empty,
  canonical_request,
}
use go_reverse_rpc.Mqttpb.Codec.{
  convert_encoding, new_array, allocate, compress_value, marshal_request, open_request,
  unmarshal_request, marshal_response, unmarshal_response,
}

-- Every number that a message can carry is taken for one of the four encodings.
convert_encoding-IsKnown : (e : ℤ) → IsKnown (convert_encoding e)
unfolding convert_encoding
convert_encoding-IsKnown e = ground arith

allocate-IsValid :
    (value : Option Bytes) (st : Manager) → IsValid st → IsValid (allocate value st).1
unfolding allocate
allocate-IsValid none st v = v
allocate-IsValid (some content) st v =
    pool_mono st.next (suc st.next) st.buffer_pool (omega arith) v

above-Apart :
    (n : ℕ) (pool : List Buffer) → All (λ buf. buf.array < n) pool → All (λ buf. n ≢ buf.array) pool
above-Apart n [] v = tt
above-Apart n (buf ∷ pool) v = (omega (arith, v.0), above-Apart n pool v.1)

-- A new array is apart from every buffer.
new_array-Apart :
    (content : Bytes) (st : Manager)
    → IsValid st
    → Apart (new_array content st).0 (new_array content st).1
unfolding new_array
new_array-Apart content st v = record {
  allocated = omega arith;
  unshared = above-Apart st.next st.buffer_pool v;
}

read-new_array :
    (content : Bytes) (st : Manager)
    → read_slice (new_array content st).0 (new_array content st).1 ≡ content
unfolding new_array read_slice
read-new_array content st =
    ap (take (length content)) (update_self st.arrays st.next content) ∙ take-length content

compress-none :
    (algorithms : Algorithms) (tp : ContentEncoding) (st : Manager)
    → compress algorithms tp none st ≡ (ok none, st)
unfolding compress
compress-none algorithms tp st = refl

decompress-none :
    (algorithms : Algorithms) (tp : ContentEncoding) → decompress algorithms tp none ≡ ok none
unfolding decompress
decompress-none algorithms tp = refl

-- The readers on an empty input: those of gzip and zlib fail, that of brotli reads nothing.
pub record EmptyInput (algorithms : Algorithms) : Type 0 where
  pub gzip : (c : Bytes) → gzip_decompress algorithms [] ≢ ok c
  pub zlib : (c : Bytes) → zlib_decompress algorithms [] ≢ ok c
  pub brotli : brotli_decompress algorithms [] ≡ ok []

module _ (algorithms : Algorithms) (reject : EmptyInput algorithms) where
  -- An empty value is taken for an empty value at most.
  decompress-nil :
      (tp : ContentEncoding) (c : Bytes) → decompress algorithms tp (some []) ≡ ok (some c) → c ≡ []
  unfolding decompress
  decompress-nil tp c e = ground (arith, reject.gzip c, reject.zlib c, reject.brotli)

  -- What arrives where `packed` was sent, once a non-nil value is decompressed.
  abbrev Arrives : ℤ → Option Bytes → Option Bytes → Type 0
  Arrives encoding packed value =
      (value' : Option Bytes) × (decompress algorithms (convert_encoding encoding)
          (drop_empty packed)
        ≡ ok value')
      × (drop_empty value' ≡ drop_empty value)

  arrives :
      (encoding : ℤ) (packed value : Option Bytes)
      → decompress algorithms (convert_encoding encoding) packed ≡ ok value
      → Arrives encoding packed value
  unfolding decompress
  arrives encoding none value e = (value, e, refl)
  arrives encoding (some []) none e = (none, refl, refl)
  arrives encoding (some []) (some c) e =
      (none, refl, rw (decompress-nil (convert_encoding encoding) c e) refl)
  arrives encoding (some (b ∷ bs)) value e = (value, e, refl)

module _ (algorithms : Algorithms) (lossless : AllLossless algorithms)
    (reject : EmptyInput algorithms) where
  -- The value of a body, compressed and decompressed.
  record Restores (encoding : ℤ) (value : Option Bytes) (st : Manager) : Type 0 where
    packed : Option Bytes
    after : Manager
    result : compress_value algorithms encoding value st ≡ (ok packed, after)
    back : decompress algorithms (convert_encoding encoding) packed ≡ ok value
    valid : IsValid after

  compress_value-Restores :
      (encoding : ℤ) (value : Option Bytes) (st : Manager) → IsValid st → Restores encoding value st
  unfolding compress_value allocate
  compress_value-Restores encoding none st v = record {
    packed = none;
    after = st;
    result = ground (arith, compress-none algorithms (convert_encoding encoding) st);
    back = decompress-none algorithms (convert_encoding encoding);
    valid = v;
  }
  compress_value-Restores encoding (some content) st v =
      let (slice, st₁) = new_array content st in
      let (slice', st₂, result, back, valid) =
        decompress-compress algorithms (convert_encoding encoding) slice st₁ lossless
          (convert_encoding-IsKnown encoding) (new_array-Apart content st v)
          (allocate-IsValid (some content) st v) in
      record {
        packed = some (read_slice slice' st₂);
        after = st₂;
        result = ground (arith, result);
        back = back ∙ ap (λ (c : Bytes). ok (some c)) (read-new_array content st);
        valid = valid;
      }

  -- The server's second step, on a body that arrived.
  open_request-opens :
      (req : Request) (body : Any) (arrived value : Option Bytes)
      → req.body ≡ some body
      → body.value ≡ arrived
      → decompress algorithms (convert_encoding req.encoding) arrived ≡ ok value
      → open_request algorithms req body arrived
        ≡ (record req { body = some (record body { value = value }) }, none)
  unfolding open_request
  open_request-opens req body none value e b d =
      ground (arith, decompress-none algorithms (convert_encoding req.encoding))
  open_request-opens req body (some c) value e b d = ground arith

  -- With compression packages and a wire format that keep their contracts, and any valid pool: at a
  -- request with strings in UTF-8 and numbers of its Go types, the client codec marshals a request,
  -- the server codec unmarshals from those bytes a request with the same id, method, encoding,
  -- metadata, type and body, up to nil for an empty body and the order of the metadata, and the
  -- pool is again valid.
  pub unmarshal-marshal_request :
      (wire : Wire Request) (req : Request) (st : Manager)
      → FaithfulRequests wire
      → IsRequest req
      → IsValid st
      → (bytes : Bytes) × (st' : Manager) × (req' : Request) × (marshal_request algorithms wire req
            st
          ≡ (ok bytes, st'))
        × (unmarshal_request algorithms wire bytes ≡ (req', none))
        × SameRequest req' req
        × IsValid st'
  unfolding marshal_request unmarshal_request
  unmarshal-marshal_request wire req st f w v = elim (Option-cases req.body) [
    | inl e ↦
        let (metadata, arrived, entries) = f.unmarshals req w in
        (
          f.encoded req,
          st,
          record req { metadata = metadata },
          ground (arith, f.marshals req w),
          ground (arith, arrived),
          record { message = refl; entries = entries },
          v,
        )
    | inr (body, e) ↦
        let back = compress_value-Restores req.encoding body.value st v in
        let sent = record req { body = some (record body { value = back.packed }) } in
        let whole = revalue-IsRequest req body back.packed e w in
        let (metadata, came, entries) = f.unmarshals sent whole in
        let here : Any = record body { value = drop_empty back.packed } in
        let (value', opens, same) =
          arrives algorithms reject req.encoding back.packed body.value back.back in
        (
          f.encoded sent,
          back.after,
          record req { metadata = metadata; body = some (record body { value = value' }) },
          ground (arith, back.result, f.marshals sent whole),
          ground (
            arith,
            came,
            open_request-opens (record (canonical_request sent) { metadata = metadata }) here
                (drop_empty back.packed) value' refl refl opens,
          ),
          record { message = ground arith; entries = entries },
          back.valid,
        )
  ]

  -- With compression packages and a wire format that keep their contracts, and any valid pool: at a
  -- response with strings in UTF-8 and numbers of its Go types, the server codec marshals a
  -- response, the client codec unmarshals from those bytes a response with the same id, status,
  -- error message, encoding, metadata, type and body, up to nil for an empty body and the order of
  -- the metadata, and the pool is again valid.
  pub unmarshal-marshal_response :
      (wire : Wire Response) (res : Response) (st : Manager)
      → FaithfulResponses wire
      → IsResponse res
      → IsValid st
      → (bytes : Bytes) × (st' : Manager) × (res' : Response) × (marshal_response algorithms wire
            res st
          ≡ (ok bytes, st'))
        × (unmarshal_response algorithms wire bytes ≡ (res', none))
        × SameResponse res' res
        × IsValid st'
  unfolding marshal_response unmarshal_response
  unmarshal-marshal_response wire res st f w v = elim (Option-cases res.body) [
    | inl e ↦
        let (metadata, arrived, entries) = f.unmarshals res w in
        (
          f.encoded res,
          st,
          record res { metadata = metadata },
          ground (arith, f.marshals res w),
          ground (arith, arrived),
          record { message = refl; entries = entries },
          v,
        )
    | inr (body, e) ↦
        let back = compress_value-Restores res.encoding body.value st v in
        let sent = record res { body = some (record body { value = back.packed }) } in
        let whole = revalue-IsResponse res body back.packed e w in
        let (metadata, came, entries) = f.unmarshals sent whole in
        let (value', opens, same) =
          arrives algorithms reject res.encoding back.packed body.value back.back in
        (
          f.encoded sent,
          back.after,
          record res { metadata = metadata; body = some (record body { value = value' }) },
          ground (arith, back.result, f.marshals sent whole),
          ground (arith, came, opens),
          record { message = ground arith; entries = entries },
          back.valid,
        )
  ]
