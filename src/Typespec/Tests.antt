-- ===== src/Typespec/Tests.antt =====
-- The typespec of `longint`, and elements of packed arrays.
use synlig.Common.{true, false, none, some, refl, ◌≡◌, [], ◌∷◌}
use synlig.Common.Text.{codes}
use synlig.Ast
use synlig.Ast.{
  AstNode, nil, node, cons, empty, entry, new_fields, ast_item, ast_struct, ast_typedef, ast_wire,
}
use synlig.Attributes.{lookup, insert}
use synlig.Typespec.Packed.{with_elem, WithTypes}
use synlig.Typespec.Ranges.{with_package}
use synlig.Names.{after_separator}
use synlig.Typespec.Width.{
  HasWidth, typespec_of, typespec_of-HasWidth, longint_type, bits_of, sign_of,
}
use synlig.Yosys.Model.{model}

typespec_of-HasWidth_example :
    HasWidth model (codes "\\t") 64 false (typespec_of model (codes "\\t") longint_type false)
unfolding bits_of sign_of
typespec_of-HasWidth_example = typespec_of-HasWidth model (codes "\\t") longint_type false

abbrev new_wire : AstNode
new_wire = node ast_wire new_fields nil empty

abbrev word : AstNode
word = node ast_typedef (record new_fields { str = codes "word" }) nil empty

abbrev first_word : AstNode
first_word = node ast_typedef (record new_fields { str = codes "word"; is_signed = true }) nil empty

abbrev word_reference : AstNode
word_reference = node (ast_item Ast.wiretype) (record new_fields { str = codes "word" }) nil empty

-- The first type of the name stays.
named_element :
    with_elem
      (some word)
      (record { wire = new_wire; param_types = entry (codes "word") first_word empty })
    ≡ record {
      wire =
          node ast_wire
            (record new_fields { is_custom_type = true })
            (cons word_reference nil)
            empty;
      param_types = entry (codes "word") first_word empty;
    }
unfolding with_elem lookup
named_element = refl

first_element :
    WithTypes.param_types (with_elem (some word) (record { wire = new_wire; param_types = empty }))
    ≡ entry (codes "word") word empty
unfolding with_elem lookup insert
first_element = refl

-- A struct takes the place of the wire and keeps its own name.
named_struct :
    WithTypes.wire (
      with_elem
        (some
          (node ast_struct (record new_fields { str = codes "word" }) (cons new_wire nil) empty))
        (record { wire = new_wire; param_types = empty }))
    ≡ node ast_struct (record new_fields { str = codes "word" }) (cons new_wire nil) empty
unfolding with_elem
named_struct = refl

-- A name of a package, a name with a package, and a name of no package.
in_package :
    with_package (some (codes "pkg")) (codes "\\word")
      ∷ with_package (some (codes "pkg")) (codes "a::b")
      ∷ with_package none (codes "\\word")
      ∷ []
    ≡ codes "pkg::word" ∷ codes "a::b" ∷ codes "\\word" ∷ []
unfolding after_separator
in_package = refl
