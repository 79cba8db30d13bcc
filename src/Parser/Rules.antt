-- ===== src/Parser/Rules.antt =====
-- The table of parse rules: `Precedence` and `ParseRules` of tx-runtime/include/tx/compiler.hxx. A
-- pointer to a method is a name of it.
use tx_lang_cxx.Prelude.{
  ℕ, ◌+◌, Bool, true, false, Option, none, some, List, [], ◌∷◌, get_elem?, leb,
}
use tx_lang_cxx.TokenType.{TokenType}

pub data Precedence : Type 0 where
  no_precedence assignment or_level and_level equality comparison : Precedence
  term factor as_level unary call primary : Precedence

-- the number behind a precedence
unfoldable pub level : Precedence → ℕ
level no_precedence = 0
level assignment = 1
level or_level = 2
level and_level = 3
level equality = 4
level comparison = 5
level term = 6
level factor = 7
level as_level = 8
level unary = 9
level call = 10
level primary = 11

abbrev pub precedences : List Precedence
precedences =
    Precedence.no_precedence ∷ Precedence.assignment ∷ Precedence.or_level ∷ Precedence.and_level
    ∷ Precedence.equality ∷ Precedence.comparison ∷ Precedence.term ∷ Precedence.factor
    ∷ Precedence.as_level ∷ Precedence.unary ∷ Precedence.call ∷ Precedence.primary ∷ []

-- `static_cast<Precedence>(to_underlying(precedence) + 1)`; no rule has the highest precedence
unfoldable pub next_precedence : Precedence → Option Precedence
unfolding level
next_precedence precedence = get_elem? precedences (level precedence + 1)

-- `lhs <= rhs`
unfoldable pub binds : Precedence → Precedence → Bool
unfolding level
binds lhs rhs = leb (level lhs) (level rhs)

pub data Prefix : Type 0 where
  grouping block unary variable literal fn_expr if_expr loop_expr : Prefix

pub data Infix : Type 0 where
  call binary and_rule or_rule as_rule : Infix

pub record ParseRule : Type 0 where
  pub prefix_rule : Option Prefix
  pub infix_rule : Option Infix
  pub precedence : Precedence

abbrev pub rule : Option Prefix → Option Infix → Precedence → ParseRule
rule prefix_rule infix_rule precedence = record {
  prefix_rule = prefix_rule;
  infix_rule = infix_rule;
  precedence = precedence;
}

-- The tokens that are not listed have neither function and the precedence `NONE`.
unfoldable pub get_rule : TokenType → ParseRule
get_rule type = elim type [
  | TokenType.left_paren ↦ rule (some Prefix.grouping) (some Infix.call) Precedence.call
  | TokenType.left_brace ↦ rule (some Prefix.block) none Precedence.no_precedence
  | TokenType.minus ↦ rule (some Prefix.unary) (some Infix.binary) Precedence.term
  | TokenType.plus ↦ rule none (some Infix.binary) Precedence.term
  | TokenType.slash ↦ rule none (some Infix.binary) Precedence.factor
  | TokenType.star ↦ rule none (some Infix.binary) Precedence.factor
  | TokenType.bang ↦ rule (some Prefix.unary) none Precedence.no_precedence
  | TokenType.bang_equal ↦ rule none (some Infix.binary) Precedence.equality
  | TokenType.equal_equal ↦ rule none (some Infix.binary) Precedence.equality
  | TokenType.left_chevron ↦ rule none (some Infix.binary) Precedence.comparison
  | TokenType.less_equal ↦ rule none (some Infix.binary) Precedence.comparison
  | TokenType.right_chevron ↦ rule none (some Infix.binary) Precedence.comparison
  | TokenType.greater_equal ↦ rule none (some Infix.binary) Precedence.comparison
  | TokenType.identifier ↦ rule (some Prefix.variable) none Precedence.no_precedence
  | TokenType.integer_literal ↦ rule (some Prefix.literal) none Precedence.no_precedence
  | TokenType.float_literal ↦ rule (some Prefix.literal) none Precedence.no_precedence
  | TokenType.string_literal ↦ rule (some Prefix.literal) none Precedence.no_precedence
  | TokenType.and_kw ↦ rule none (some Infix.and_rule) Precedence.and_level
  | TokenType.as_kw ↦ rule none (some Infix.as_rule) Precedence.as_level
  | TokenType.false_kw ↦ rule (some Prefix.literal) none Precedence.no_precedence
  | TokenType.fn_kw ↦ rule (some Prefix.fn_expr) none Precedence.no_precedence
  | TokenType.if_kw ↦ rule (some Prefix.if_expr) none Precedence.no_precedence
  | TokenType.loop_kw ↦ rule (some Prefix.loop_expr) none Precedence.no_precedence
  | TokenType.nil_kw ↦ rule (some Prefix.literal) none Precedence.no_precedence
  | TokenType.or_kw ↦ rule none (some Infix.or_rule) Precedence.or_level
  | TokenType.true_kw ↦ rule (some Prefix.literal) none Precedence.no_precedence
  | _ ↦ rule none none Precedence.no_precedence
]

-- `is_block_expr`
unfoldable pub is_block_expr : TokenType → Bool
is_block_expr type = elim type [
  | TokenType.left_brace ↦ true
  | TokenType.if_kw ↦ true
  | TokenType.loop_kw ↦ true
  | _ ↦ false
]
