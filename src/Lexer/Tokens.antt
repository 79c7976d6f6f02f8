-- ===== src/Lexer/Tokens.antt =====
-- src/syntax/lexer.h and `token_description` of src/syntax/lexer.c: the kinds of token, and what the
-- diagnostics call them. Text is a list of bytes.
use Prim.Native.Char.{code}
use Prim.Native.String.{String}
use gab.Prelude.{ℕ, List, [], ◌∷◌}

abbrev pub codes : String → List ℕ
codes String.[] = []
codes (String.◌∷◌ c s) = code c ∷ codes s

-- Each constructor has the name of the source's, where it is free.
pub data TokenType : Type 0 where
  invalid eof int_literal float_literal string_literal : TokenType
  plus minus mul div mod_sign assign plus_eq minus_eq mul_eq div_eq mod_eq : TokenType
  not_sign less greater equal nequal lequal gequal and_sign amp or_sign : TokenType
  lparen rparen lbrace rbrace lbracket rbracket semicolon colon colon_colon comma dot dot_dot :
      TokenType
  let_word func_word extern_word intrinsic_word caller_word builtin struct_word impl_word :
      TokenType
  interface_word as_word module_word import_word return_word if_word else_word for_word : TokenType
  break_word continue_word true_word false_word ident : TokenType

unfoldable pub token_description : TokenType → List ℕ
token_description TokenType.invalid = codes "invalid token"
token_description TokenType.eof = codes "end of input"
token_description TokenType.int_literal = codes "an integer literal"
token_description TokenType.float_literal = codes "a float literal"
token_description TokenType.string_literal = codes "a string literal"
token_description TokenType.ident = codes "an identifier"
token_description TokenType.plus = codes "'+'"
token_description TokenType.minus = codes "'-'"
token_description TokenType.mul = codes "'*'"
token_description TokenType.div = codes "'/'"
token_description TokenType.mod_sign = codes "'%'"
token_description TokenType.assign = codes "'='"
token_description TokenType.plus_eq = codes "'+='"
token_description TokenType.minus_eq = codes "'-='"
token_description TokenType.mul_eq = codes "'*='"
token_description TokenType.div_eq = codes "'/='"
token_description TokenType.mod_eq = codes "'%='"
token_description TokenType.not_sign = codes "'!'"
token_description TokenType.less = codes "'<'"
token_description TokenType.greater = codes "'>'"
token_description TokenType.equal = codes "'=='"
token_description TokenType.nequal = codes "'!='"
token_description TokenType.lequal = codes "'<='"
token_description TokenType.gequal = codes "'>='"
token_description TokenType.and_sign = codes "'&&'"
token_description TokenType.amp = codes "'&'"
token_description TokenType.or_sign = codes "'||'"
token_description TokenType.lparen = codes "'('"
token_description TokenType.rparen = codes "')'"
token_description TokenType.lbrace = codes "'{'"
token_description TokenType.rbrace = codes "'}'"
token_description TokenType.lbracket = codes "'['"
token_description TokenType.rbracket = codes "']'"
token_description TokenType.semicolon = codes "';'"
token_description TokenType.colon = codes "':'"
token_description TokenType.colon_colon = codes "'::'"
token_description TokenType.comma = codes "','"
token_description TokenType.dot = codes "'.'"
token_description TokenType.dot_dot = codes "'..'"
token_description TokenType.let_word = codes "'let'"
token_description TokenType.func_word = codes "'func'"
token_description TokenType.extern_word = codes "'extern'"
token_description TokenType.intrinsic_word = codes "'intrinsic'"
token_description TokenType.caller_word = codes "'caller'"
token_description TokenType.builtin = codes "a builtin"
token_description TokenType.struct_word = codes "'struct'"
token_description TokenType.impl_word = codes "'impl'"
token_description TokenType.interface_word = codes "'interface'"
token_description TokenType.as_word = codes "'as'"
token_description TokenType.module_word = codes "'module'"
token_description TokenType.import_word = codes "'import'"
token_description TokenType.return_word = codes "'return'"
token_description TokenType.if_word = codes "'if'"
token_description TokenType.else_word = codes "'else'"
token_description TokenType.for_word = codes "'for'"
token_description TokenType.break_word = codes "'break'"
token_description TokenType.continue_word = codes "'continue'"
token_description TokenType.true_word = codes "'true'"
token_description TokenType.false_word = codes "'false'"
