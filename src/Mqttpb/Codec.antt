-- ===== src/Mqttpb/Codec.antt =====
-- mqttpb/codec.go: the codecs of the two sides, over the messages' wire formats and a compressor.
pub mod RoundTrip
use go_reverse_rpc.Base.{
  ℕ, ℤ, suc, ◌≡◌, Bool, Option, none, some, Bytes, ◌==◌, if◌then◌else◌, length,
}
use go_reverse_rpc.Base.Int.{ℤ_eq}
use go_reverse_rpc.Errors.{Error, Result, ok, err}
use go_reverse_rpc.Compressor.{
  ContentEncoding, content_encoding_gzip, content_encoding_deflate, content_encoding_brotli,
  content_encoding_plain, Algorithms, compress, decompress,
}
use go_reverse_rpc.Compressor.Buffers.{Slice, Manager, new_compressor_manager, update, read_slice}
use go_reverse_rpc.Mqttpb.Messages.{
  Any, Request, Response, encoding_plain, encoding_gzip, encoding_deflate, encoding_brotli, Wire,
  Marshalled, done, failed,
}

-- The codecs hold a compressor, and nothing else.
abbrev pub ProtobufServerCodec : Type 0
ProtobufServerCodec = Manager

abbrev pub ProtobufClientCodec : Type 0
ProtobufClientCodec = Manager

-- `NewProtobufServerCodec`
unfoldable pub new_protobuf_server_codec : ProtobufServerCodec
unfolding new_compressor_manager
new_protobuf_server_codec = new_compressor_manager

-- `NewServerCodecWithCompressor`
unfoldable pub new_server_codec_with_compressor : Manager → ProtobufServerCodec
new_server_codec_with_compressor compressor = compressor

-- `NewProtobufClientCodec`
unfoldable pub new_protobuf_client_codec : ProtobufClientCodec
unfolding new_compressor_manager
new_protobuf_client_codec = new_compressor_manager

-- `NewClientCodecWithCompressor`
unfoldable pub new_client_codec_with_compressor : Manager → ProtobufClientCodec
new_client_codec_with_compressor compressor = compressor

unfoldable pub convert_encoding : ℤ → ContentEncoding
convert_encoding e =
    if e == encoding_plain
    then content_encoding_plain
    else if e == encoding_gzip
    then content_encoding_gzip
    else if e == encoding_deflate
    then content_encoding_deflate
    else if e == encoding_brotli
    then content_encoding_brotli
    else content_encoding_plain

-- The array of a body, which its maker allocated.
unfoldable pub new_array : Bytes → Manager → Slice × Manager
unfolding update
new_array content st = (
  record { array = st.next; len = length content },
  record st { arrays = update st.arrays st.next content; next = suc st.next },
)

unfoldable pub allocate : Option Bytes → Manager → Option Slice × Manager
unfolding new_array
allocate none st = (none, st)
allocate (some content) st = let (slice, st') = new_array content st in (some slice, st')

abbrev pub read_optional : Option Slice → Manager → Option Bytes
read_optional none st = none
read_optional (some slice) st = some (read_slice slice st)

abbrev pub to_result : Marshalled → Result Bytes
to_result (done bytes) = ok bytes
to_result (failed e) = err e

module _ (algorithms : Algorithms) where
  -- The value of a body on the wire: compressed, then read at once from the returned slice.
  unfoldable pub compress_value : ℤ → Option Bytes → Manager → Result (Option Bytes) × Manager
  unfolding allocate
  compress_value encoding value st =
      let (slice, st₁) = allocate value st in
      let (result, st₂) = compress algorithms (convert_encoding encoding) slice st₁ in
      elim result [ ok slice' ↦ (ok (read_optional slice' st₂), st₂) | err e ↦ (err e, st₂) ]

  -- `ProtobufClientCodec.Marshal`
  unfoldable pub marshal_request : Wire Request → Request → Manager → Result Bytes × Manager
  marshal_request wire req st = elim req.body [
    | none ↦ (to_result (wire.marshal req), st)
    | some body ↦
        let (result, st') = compress_value req.encoding body.value st in
        elim result [
          | err e ↦ (err e, st')
          | ok value ↦ (
            to_result (wire.marshal (record req { body = some (record body { value = value }) })),
            st',
          )
        ]
  ]

  -- `ProtobufServerCodec.Marshal`
  unfoldable pub marshal_response : Wire Response → Response → Manager → Result Bytes × Manager
  marshal_response wire res st = elim res.body [
    | none ↦ (to_result (wire.marshal res), st)
    | some body ↦
        let (result, st') = compress_value res.encoding body.value st in
        elim result [
          | err e ↦ (err e, st')
          | ok value ↦ (
            to_result (wire.marshal (record res { body = some (record body { value = value }) })),
            st',
          )
        ]
  ]

  -- `ProtobufServerCodec.Unmarshal`, with the request that it leaves behind.
  unfoldable pub open_request : Request → Any → Option Bytes → Request × Option Error
  open_request req body none = (req, none)
  open_request req body (some value) =
      elim (decompress algorithms (convert_encoding req.encoding) (some value)) [
        | err e ↦ (req, some e)
        | ok value' ↦ (record req { body = some (record body { value = value' }) }, none)
      ]

  unfoldable pub unmarshal_request : Wire Request → Bytes → Request × Option Error
  unmarshal_request wire bytes =
      let (req, failure) = wire.unmarshal bytes in
      elim failure [
        | some e ↦ (req, some e)
        | none ↦ elim req.body [ none ↦ (req, none) | some body ↦ open_request req body body.value ]
      ]

  -- `ProtobufClientCodec.Unmarshal`
  unfoldable pub unmarshal_response : Wire Response → Bytes → Response × Option Error
  unmarshal_response wire bytes =
      let (res, failure) = wire.unmarshal bytes in
      elim failure [
        | some e ↦ (res, some e)
        | none ↦ elim res.body [
          | none ↦ (res, none)
          | some body ↦ elim (decompress algorithms (convert_encoding res.encoding) body.value) [
            | err e ↦ (res, some e)
            | ok value ↦ (record res { body = some (record body { value = value }) }, none)
          ]
        ]
      ]
