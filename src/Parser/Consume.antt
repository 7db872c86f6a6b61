-- ===== src/Parser/Consume.antt =====
-- `ConsumeToken`: both of its outcomes.
use nib_lang.Base.{Bool, true, false, some, ◌≡◌, refl, ◌⊎◌, inl, inr, Bytes, Bool-cases}
use nib_lang.Tokenizer.Kinds.{TokenKind, same_kind}
use nib_lang.Parser.{Parser, add_error, consume_token}
use nib_lang.Parser.Advance.{Advanced, advance_token-Advanced}

-- What a call of `ConsumeToken` leaves.
abbrev pub Consumed : TokenKind → Bytes → Parser → Bool → Parser → Type 0
Consumed expected_kind error_message p b q =
    ((b ≡ true) × (same_kind p.current_token.kind expected_kind ≡ true) × Advanced p q)
    ⊎ ((b ≡ false)
        × (same_kind p.current_token.kind expected_kind ≡ false)
        × (q ≡ add_error error_message p))

-- `ConsumeToken` ends on every source. It answers true when the token at hand is of the kind that is
-- expected, and advances past it; else it answers false, stays at the token and adds the message.
pub consume_token-Consumed :
    (expected_kind : TokenKind) (error_message : Bytes) (p : Parser)
    → (b : Bool) × (q : Parser) × (consume_token expected_kind error_message p ≡ some (b, q))
      × Consumed expected_kind error_message p b q
unfolding consume_token
consume_token-Consumed expected_kind error_message p =
    elim (Bool-cases (same_kind p.current_token.kind expected_kind)) [
      | inl e ↦
          let (q, found, a) = advance_token-Advanced p in
          (true, q, rw (e, found, consume_token) refl, inl (refl, e, a))
      | inr e ↦ (false, add_error error_message p, rw (e, consume_token) refl, inr (refl, e, refl))
    ]
