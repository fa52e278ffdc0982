-- ===== src/Constant/Tests.antt =====
-- Constants with a size of 12.
use synlig.Common.{◌≡◌, true, none, some, refl}
use synlig.Common.Checked.{gives}
use synlig.Common.Int.{pos, negsuc}
use synlig.Common.Text.{Text, codes}
use synlig.Ast.{AstNode, node, nil, empty, new_fields, ast_constant}
use synlig.Constant.{Object, literal_of, process_value, u_int_val, int_val, hex_str_val, has_char}
use synlig.Constant.Digits.{Denotes, literal_of-Denotes}
use synlig.Constant.Literals.{hexadecimal, format_of, letter, IsSized, process_value-IsSized}
use synlig.Statement.Cases.{case_x}
use synlig.Yosys.Model.{model}

abbrev text_node : Text → AstNode
text_node s = node ast_constant (record new_fields { str = s }) nil empty

abbrev twelve : Object
twelve = record {
  val = hex_str_val (codes "aXc");
  typespec_signed = true;
  size = pos 12;
  decompile = none;
  case_type = some case_x;
}

literal_of-Denotes_example :
    Denotes
      (pos 5000000000)
      (literal_of model text_node (record twelve { val = u_int_val 5000000000 }))
    × Denotes (negsuc 1) (literal_of model text_node (record twelve { val = int_val (negsuc 1) }))
literal_of-Denotes_example = literal_of-Denotes model text_node twelve 5000000000 (negsuc 1)

-- 12'shaXc.
process_value-IsSized_example :
    (text : Text) × ((process_value model true text_node (λ t c. some (text_node t)) twelve
        ≡ gives (some (text_node text)))
      × IsSized 12 (codes "shaXc") text)
unfolding format_of letter has_char
process_value-IsSized_example =
    process_value-IsSized model text_node (λ t c. some (text_node t)) true twelve hexadecimal
      (codes "aXc") 11 refl refl refl
