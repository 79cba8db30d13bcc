-- ===== src/TokenType.antt =====
-- tx-runtime/include/tx/tokens.inc: the types of tokens, in the order of the source. A keyword's
-- type ends in `_kw`, since some keywords are reserved words here.
pub data TokenType : Type 0 where
  left_paren right_paren left_brace right_brace left_bracket : TokenType
  right_bracket colon comma dot minus : TokenType
  pipe plus semicolon slash star : TokenType
  bang bang_equal equal equal_equal left_chevron : TokenType
  less_equal right_chevron greater_equal identifier integer_literal : TokenType
  float_literal string_literal string_interp and_kw as_kw : TokenType
  async_kw await_kw break_kw continue_kw else_kw : TokenType
  false_kw for_kw fn_kw if_kw in_kw : TokenType
  inout_kw import_kw is_kw let_kw loop_kw : TokenType
  nil_kw match_kw or_kw out_kw return_kw : TokenType
  self_kw struct_kw super_kw true_kw var_kw : TokenType
  while_kw any_type bool_type char_type float_type : TokenType
  fn_type int_type nil_type str_type error : TokenType
  end_of_file : TokenType
