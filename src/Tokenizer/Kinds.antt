-- ===== src/Tokenizer/Kinds.antt =====
-- `enum class TokenKind`, the keyword table and the operator tables of the tokenizer.
use nib_lang.Base.{
  Bool, ℕ, List, [], ◌∷◌, Option, none, some, ◌==◌, if◌then◌else◌, ◌&&◌, Bytes, codes,
}

pub data TokenKind : Type 0 where
  unknown ident number string template_string char kw_if kw_else kw_fn kw_true : TokenKind
  kw_false kw_return kw_throw kw_while kw_break kw_continue kw_struct kw_extern : TokenKind
  kw_let kw_alias kw_static kw_as kw_type_of kw_nil kw_import kw_interface : TokenKind
  kw_implements kw_size_of variadic open_paren close_paren open_brace close_brace : TokenKind
  square_open square_close dot pipe comma colon assign plus minus multiply divide : TokenKind
  not_mark question plus_plus minus_minus question_question compare_gt compare_lt : TokenKind
  compare_ge compare_le compare_eq compare_ne skinny_arrow and_and or_or and_mark : TokenKind
  percent comment token_error end_expr end_of_file : TokenKind

-- `kKeywordToToken`
unfoldable pub keyword_to_token : List (Bytes × TokenKind)
keyword_to_token =
    (codes "if", kw_if)
    ∷ (codes "else", kw_else)
    ∷ (codes "fn", kw_fn)
    ∷ (codes "true", kw_true)
    ∷ (codes "false", kw_false)
    ∷ (codes "return", kw_return)
    ∷ (codes "throw", kw_throw)
    ∷ (codes "while", kw_while)
    ∷ (codes "break", kw_break)
    ∷ (codes "continue", kw_continue)
    ∷ (codes "struct", kw_struct)
    ∷ (codes "extern", kw_extern)
    ∷ (codes "let", kw_let)
    ∷ (codes "alias", kw_alias)
    ∷ (codes "static", kw_static)
    ∷ (codes "as", kw_as)
    ∷ (codes "of", kw_type_of)
    ∷ (codes "Nil", kw_nil)
    ∷ (codes "@import", kw_import)
    ∷ (codes "interface", kw_interface)
    ∷ (codes "implements", kw_implements)
    ∷ (codes "sizeof", kw_size_of)
    ∷ []

unfoldable pub get_single_char_token : ℕ → Option TokenKind
get_single_char_token ch =
    if ch == b'+'
    then some plus
    else if ch == b'-'
    then some minus
    else if ch == b'*'
    then some multiply
    else if ch == b'/'
    then some divide
    else if ch == b'='
    then some assign
    else if ch == b';'
    then some end_expr
    else if ch == b':'
    then some colon
    else if ch == b','
    then some comma
    else if ch == b'>'
    then some compare_gt
    else if ch == b'<'
    then some compare_lt
    else if ch == b'('
    then some open_paren
    else if ch == b')'
    then some close_paren
    else if ch == b'{'
    then some open_brace
    else if ch == b'}'
    then some close_brace
    else if ch == b'['
    then some square_open
    else if ch == b']'
    then some square_close
    else if ch == b'.'
    then some dot
    else if ch == b'|'
    then some pipe
    else if ch == b'!'
    then some not_mark
    else if ch == b'?'
    then some question
    else if ch == b'&'
    then some and_mark
    else if ch == b'%'
    then some percent
    else none

-- The two bytes of the view.
unfoldable pub get_double_char_token : ℕ → ℕ → Option TokenKind
get_double_char_token a b =
    if a == b'=' && b == b'='
    then some compare_eq
    else if a == b'!' && b == b'='
    then some compare_ne
    else if a == b'>' && b == b'='
    then some compare_ge
    else if a == b'<' && b == b'='
    then some compare_le
    else if a == b'-' && b == b'>'
    then some skinny_arrow
    else if a == b'&' && b == b'&'
    then some and_and
    else if a == b'|' && b == b'|'
    then some or_or
    else if a == b'+' && b == b'+'
    then some plus_plus
    else if a == b'-' && b == b'-'
    then some minus_minus
    else if a == b'?' && b == b'?'
    then some question_question
    else none

-- The values of the enumerators.
unfoldable pub kind_number : TokenKind → ℕ
kind_number unknown = 0
kind_number ident = 1
kind_number number = 2
kind_number string = 3
kind_number template_string = 4
kind_number char = 5
kind_number kw_if = 6
kind_number kw_else = 7
kind_number kw_fn = 8
kind_number kw_true = 9
kind_number kw_false = 10
kind_number kw_return = 11
kind_number kw_throw = 12
kind_number kw_while = 13
kind_number kw_break = 14
kind_number kw_continue = 15
kind_number kw_struct = 16
kind_number kw_extern = 17
kind_number kw_let = 18
kind_number kw_alias = 19
kind_number kw_static = 20
kind_number kw_as = 21
kind_number kw_type_of = 22
kind_number kw_nil = 23
kind_number kw_import = 24
kind_number kw_interface = 25
kind_number kw_implements = 26
kind_number kw_size_of = 27
kind_number variadic = 28
kind_number open_paren = 29
kind_number close_paren = 30
kind_number open_brace = 31
kind_number close_brace = 32
kind_number square_open = 33
kind_number square_close = 34
kind_number dot = 35
kind_number pipe = 36
kind_number comma = 37
kind_number colon = 38
kind_number assign = 39
kind_number plus = 40
kind_number minus = 41
kind_number multiply = 42
kind_number divide = 43
kind_number not_mark = 44
kind_number question = 45
kind_number plus_plus = 46
kind_number minus_minus = 47
kind_number question_question = 48
kind_number compare_gt = 49
kind_number compare_lt = 50
kind_number compare_ge = 51
kind_number compare_le = 52
kind_number compare_eq = 53
kind_number compare_ne = 54
kind_number skinny_arrow = 55
kind_number and_and = 56
kind_number or_or = 57
kind_number and_mark = 58
kind_number percent = 59
kind_number comment = 60
kind_number token_error = 61
kind_number end_expr = 62
kind_number end_of_file = 63

unfoldable pub same_kind : TokenKind → TokenKind → Bool
same_kind a b = kind_number a == kind_number b
