-- ===== src/Visit/Operators.antt =====
-- The operators that replace a binary operator: `visit_expr_binary` in src/visit.rs.
use cargo_mutants.Prelude.Text.{Text, codes, text_eq}
use cargo_mutants.Prelude.{◌≡◌, refl, false, List, [], ◌∷◌, map, All}
use cargo_mutants.Pretty.{TokenStream, end}
use cargo_mutants.FnValue.Quote.{◌+++◌, op}

-- `syn::BinOp`
pub data BinOp : Type 0 where
  eq ne and or lt gt le ge add sub mul div rem shl shr bit_and bit_or bit_xor : BinOp
  add_assign sub_assign mul_assign div_assign rem_assign shl_assign shr_assign : BinOp
  bit_and_assign bit_or_assign bit_xor_assign : BinOp

-- The tokens of an operator
abbrev pub tokens : Text → TokenStream
tokens [] = end
tokens (c ∷ s) = op c +++ tokens s

abbrev pub operator : BinOp → Text
operator eq = codes "=="
operator ne = codes "!="
operator and = codes "&&"
operator or = codes "||"
operator lt = codes "<"
operator gt = codes ">"
operator le = codes "<="
operator ge = codes ">="
operator add = codes "+"
operator sub = codes "-"
operator mul = codes "*"
operator div = codes "/"
operator rem = codes "%"
operator shl = codes "<<"
operator shr = codes ">>"
operator bit_and = codes "&"
operator bit_or = codes "|"
operator bit_xor = codes "^"
operator add_assign = codes "+="
operator sub_assign = codes "-="
operator mul_assign = codes "*="
operator div_assign = codes "/="
operator rem_assign = codes "%="
operator shl_assign = codes "<<="
operator shr_assign = codes ">>="
operator bit_and_assign = codes "&="
operator bit_or_assign = codes "|="
operator bit_xor_assign = codes "^="

-- The replacements, as operators
unfoldable pub replaced_by : BinOp → List BinOp
replaced_by eq = ne ∷ []
replaced_by ne = eq ∷ []
replaced_by and = or ∷ []
replaced_by or = and ∷ []
replaced_by lt = eq ∷ gt ∷ le ∷ []
replaced_by gt = eq ∷ lt ∷ ge ∷ []
replaced_by le = gt ∷ lt ∷ []
replaced_by ge = lt ∷ gt ∷ []
replaced_by add = sub ∷ mul ∷ []
replaced_by add_assign = sub_assign ∷ mul_assign ∷ []
replaced_by sub = add ∷ div ∷ []
replaced_by mul = add ∷ div ∷ []
replaced_by sub_assign = add_assign ∷ div_assign ∷ []
replaced_by mul_assign = add_assign ∷ div_assign ∷ []
replaced_by div = rem ∷ mul ∷ []
replaced_by div_assign = rem_assign ∷ mul_assign ∷ []
replaced_by rem = div ∷ add ∷ []
replaced_by rem_assign = div_assign ∷ add_assign ∷ []
replaced_by shl = shr ∷ []
replaced_by shl_assign = shr_assign ∷ []
replaced_by shr = shl ∷ []
replaced_by shr_assign = shl_assign ∷ []
replaced_by bit_and = bit_or ∷ bit_xor ∷ []
replaced_by bit_and_assign = bit_or_assign ∷ []
replaced_by bit_or = bit_and ∷ bit_xor ∷ []
replaced_by bit_or_assign = bit_and_assign ∷ []
replaced_by bit_xor = bit_or ∷ bit_and ∷ []
replaced_by bit_xor_assign = bit_or_assign ∷ bit_and_assign ∷ []

-- The replacements, as tokens
unfoldable pub binary_replacements : BinOp → List TokenStream
unfolding replaced_by
binary_replacements o = map (λ r. tokens (operator r)) (replaced_by o)

-- What kind of value an operator gives
pub data Kind : Type 0 where
  truth arithmetic bitwise assignment : Kind

abbrev pub kind : BinOp → Kind
kind eq = truth
kind ne = truth
kind and = truth
kind or = truth
kind lt = truth
kind gt = truth
kind le = truth
kind ge = truth
kind add = arithmetic
kind sub = arithmetic
kind mul = arithmetic
kind div = arithmetic
kind rem = arithmetic
kind shl = bitwise
kind shr = bitwise
kind bit_and = bitwise
kind bit_or = bitwise
kind bit_xor = bitwise
kind add_assign = assignment
kind sub_assign = assignment
kind mul_assign = assignment
kind div_assign = assignment
kind rem_assign = assignment
kind shl_assign = assignment
kind shr_assign = assignment
kind bit_and_assign = assignment
kind bit_or_assign = assignment
kind bit_xor_assign = assignment

-- A replacement gives a value of the kind of the operator, and is another operator.
pub replaced_by-same_kind :
    (o : BinOp)
    → All (λ r. (kind r ≡ kind o) × (text_eq (operator r) (operator o) ≡ false)) (replaced_by o)
unfolding replaced_by
replaced_by-same_kind eq = ((refl, refl), tt)
replaced_by-same_kind ne = ((refl, refl), tt)
replaced_by-same_kind and = ((refl, refl), tt)
replaced_by-same_kind or = ((refl, refl), tt)
replaced_by-same_kind lt = ((refl, refl), ((refl, refl), ((refl, refl), tt)))
replaced_by-same_kind gt = ((refl, refl), ((refl, refl), ((refl, refl), tt)))
replaced_by-same_kind le = ((refl, refl), ((refl, refl), tt))
replaced_by-same_kind ge = ((refl, refl), ((refl, refl), tt))
replaced_by-same_kind add = ((refl, refl), ((refl, refl), tt))
replaced_by-same_kind sub = ((refl, refl), ((refl, refl), tt))
replaced_by-same_kind mul = ((refl, refl), ((refl, refl), tt))
replaced_by-same_kind div = ((refl, refl), ((refl, refl), tt))
replaced_by-same_kind rem = ((refl, refl), ((refl, refl), tt))
replaced_by-same_kind shl = ((refl, refl), tt)
replaced_by-same_kind shr = ((refl, refl), tt)
replaced_by-same_kind bit_and = ((refl, refl), ((refl, refl), tt))
replaced_by-same_kind bit_or = ((refl, refl), ((refl, refl), tt))
replaced_by-same_kind bit_xor = ((refl, refl), ((refl, refl), tt))
replaced_by-same_kind add_assign = ((refl, refl), ((refl, refl), tt))
replaced_by-same_kind sub_assign = ((refl, refl), ((refl, refl), tt))
replaced_by-same_kind mul_assign = ((refl, refl), ((refl, refl), tt))
replaced_by-same_kind div_assign = ((refl, refl), ((refl, refl), tt))
replaced_by-same_kind rem_assign = ((refl, refl), ((refl, refl), tt))
replaced_by-same_kind shl_assign = ((refl, refl), tt)
replaced_by-same_kind shr_assign = ((refl, refl), tt)
replaced_by-same_kind bit_and_assign = ((refl, refl), tt)
replaced_by-same_kind bit_or_assign = ((refl, refl), tt)
replaced_by-same_kind bit_xor_assign = ((refl, refl), ((refl, refl), tt))
