-- ===== src/P2p/Transport/Framing.antt =====
-- What `Send` writes, `ReadMessage` reads.
use chainlang.Prelude.{
  ◌≡◌, ◌≢◌, refl, ap, ◌∙◌, true, false, Option, some, [], ◌∷◌, ◌++◌, Bytes, nat_beq, All,
}
use chainlang.P2p.Messages.{Kind, Payload, Wire, encode_message, decode_message, IsCarried}
use chainlang.P2p.Transport.{
  Link, read_bytes, without_newline, send, decode_line, read_line, read_message,
}

abbrev pub IsLine : Bytes → Type 0
IsLine = All (λ c. nat_beq c 10 ≡ false)

read_bytes-line :
    (text rest : Bytes)
    → IsLine text
    → read_bytes (text ++ 10 ∷ rest) ≡ some (text ++ 10 ∷ [], rest)
unfolding read_bytes
read_bytes-line [] rest h = refl
read_bytes-line (c ∷ cs) rest h = rw (h.0, read_bytes-line cs rest h.1) refl

without_newline-line : (text : Bytes) → without_newline (text ++ 10 ∷ []) ≡ text
unfolding without_newline
without_newline-line [] = refl
without_newline-line (c ∷ []) = refl
without_newline-line (c ∷ d ∷ cs) = ap (λ r. c ∷ r) (without_newline-line (d ∷ cs))

-- The connection carries what is written to it.
abbrev pub IsReliable : Link → Type 0
IsReliable link =
    (stream data_bytes : Bytes) → link stream data_bytes ≡ (stream ++ data_bytes, true)

module _ (wire : Wire) where
  decode_line_filled : (text : Bytes) → text ≢ [] → decode_line wire text ≡ decode_message wire text
  unfolding decode_line
  decode_line_filled [] h = absurd (h refl)
  decode_line_filled (c ∷ cs) h = refl

  module _ {kind : Kind} {payload : Option Payload} {raw : Bytes}
      (carried : IsCarried wire kind payload raw) where
    pub send-IsCarried :
        (link : Link) (stream : Bytes)
        → IsReliable link
        → send wire link stream kind payload ≡ (stream ++ (carried.text ++ 10 ∷ []), true)
    unfolding send encode_message
    send-IsCarried link stream reliable =
        rw (carried.marshals, carried.encodes) (reliable stream (carried.text ++ 10 ∷ []))

    pub read_message-IsCarried :
        (rest : Bytes) → read_message wire (carried.text ++ 10 ∷ rest) ≡ (some (kind, raw), rest)
    unfolding read_message read_line decode_message
    read_message-IsCarried rest =
        ap (read_line wire) (read_bytes-line carried.text rest carried.one_line)
        ∙ ap (λ text. (decode_line wire text, rest)) (without_newline-line carried.text)
        ∙ ap (λ o. (o, rest)) (decode_line_filled carried.text carried.not_empty ∙ carried.decodes)
