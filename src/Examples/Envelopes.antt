-- ===== src/Examples/Envelopes.antt =====
-- The theorem on the envelope codec at a concrete envelope.
use vor.Common.{◌≡◌, inl, [], ◌∷◌, arith, codes}
use vor.License.{envelope_encode, envelope_decode}
use vor.License.Errors.{ok}
use vor.License.Envelope.{envelope_decode-envelope_encode}

envelope_decode-envelope_encode_example :
    envelope_decode (envelope_encode (codes "{}") (1 ∷ 2 ∷ []) (255 ∷ []))
    ≡ ok (record { payload_json = codes "{}"; sig = 1 ∷ 2 ∷ []; pk = 255 ∷ [] })
envelope_decode-envelope_encode_example =
    envelope_decode-envelope_encode 123 (codes "}") (1 ∷ 2 ∷ []) (255 ∷ []) (omega arith)
      (inl (omega arith), (inl (omega arith), tt)) (omega arith, (omega arith, tt))
      (omega arith, tt)
