-- ===== src/Syntax/NodeNames.antt =====
-- The names of node kinds (`syntax_node_kind_name` of syntax/syntax_tree.c).
use Prim.Native.String.{String}
use text.Mathlib.Text.{◌==◌}
use arche.Base.{◌≡◌, refl, ap, List, [], ◌∷◌, Option, some, none, if◌then◌else◌}
use arche.Syntax.NodeKind.{SyntaxNodeKind, syntax_node_kind_name}
use arche.Syntax.NodeKind.{sn_source_file, sn_world_decl, sn_archetype_decl, sn_proc_decl}
use arche.Syntax.NodeKind.{sn_map_decl, sn_func_decl, sn_func_group_decl, sn_static_decl}
use arche.Syntax.NodeKind.{sn_const_decl, sn_default_decl, sn_use_decl, sn_region}
use arche.Syntax.NodeKind.{sn_run_decl, sn_param_list, sn_param, sn_out_param}
use arche.Syntax.NodeKind.{sn_out_arg, sn_write_param, sn_field_decl, sn_return_types}
use arche.Syntax.NodeKind.{sn_arg_list, sn_bind_stmt, sn_assign_stmt, sn_for_stmt}
use arche.Syntax.NodeKind.{sn_if_stmt, sn_else_clause, sn_break_stmt, sn_continue_stmt}
use arche.Syntax.NodeKind.{sn_run_stmt, sn_expr_stmt, sn_return_stmt, sn_multi_bind_stmt}
use arche.Syntax.NodeKind.{sn_proc_call_stmt, sn_each_field_stmt, sn_block, sn_match_stmt}
use arche.Syntax.NodeKind.{sn_match_arm, sn_literal_expr, sn_name_expr, sn_field_expr}
use arche.Syntax.NodeKind.{sn_index_expr, sn_slice_expr, sn_binary_expr, sn_unary_expr}
use arche.Syntax.NodeKind.{sn_call_expr, sn_alloc_expr, sn_array_lit_expr, sn_string_expr}
use arche.Syntax.NodeKind.{sn_entity_expr, sn_tuple_lit, sn_paren_expr, sn_proc_expr}
use arche.Syntax.NodeKind.{sn_func_expr, sn_policy_expr, sn_group_expr, sn_arch_expr}
use arche.Syntax.NodeKind.{sn_map_expr, sn_system_expr, sn_each_expr, sn_query_expr}
use arche.Syntax.NodeKind.{sn_enum_expr, sn_enum_variant, sn_sum_expr, sn_sum_variant}
use arche.Syntax.NodeKind.{sn_type_ref, sn_type_array, sn_type_shaped_array, sn_type_tuple}
use arche.Syntax.NodeKind.{sn_type_handle, sn_type_eff, sn_type_proc, sn_type_func}
use arche.Syntax.NodeKind.{sn_type_def_name, sn_func_def_name, sn_field_name, sn_param_name}
use arche.Syntax.NodeKind.{sn_callee_name, sn_query_ref, sn_query_bind, sn_eff}
use arche.Syntax.NodeKind.{sn_alloc_type, sn_name_ref, sn_policy_ref, sn_error}

abbrev all_kinds : List SyntaxNodeKind
all_kinds =
    sn_source_file ∷ sn_world_decl ∷ sn_archetype_decl ∷ sn_proc_decl ∷ sn_map_decl ∷ sn_func_decl
    ∷ sn_func_group_decl ∷ sn_static_decl ∷ sn_const_decl ∷ sn_default_decl ∷ sn_use_decl
    ∷ sn_region ∷ sn_run_decl ∷ sn_param_list ∷ sn_param ∷ sn_out_param ∷ sn_out_arg
    ∷ sn_write_param ∷ sn_field_decl ∷ sn_return_types ∷ sn_arg_list ∷ sn_bind_stmt ∷ sn_assign_stmt
    ∷ sn_for_stmt ∷ sn_if_stmt ∷ sn_else_clause ∷ sn_break_stmt ∷ sn_continue_stmt ∷ sn_run_stmt
    ∷ sn_expr_stmt ∷ sn_return_stmt ∷ sn_multi_bind_stmt ∷ sn_proc_call_stmt ∷ sn_each_field_stmt
    ∷ sn_block ∷ sn_match_stmt ∷ sn_match_arm ∷ sn_literal_expr ∷ sn_name_expr ∷ sn_field_expr
    ∷ sn_index_expr ∷ sn_slice_expr ∷ sn_binary_expr ∷ sn_unary_expr ∷ sn_call_expr ∷ sn_alloc_expr
    ∷ sn_array_lit_expr ∷ sn_string_expr ∷ sn_entity_expr ∷ sn_tuple_lit ∷ sn_paren_expr
    ∷ sn_proc_expr ∷ sn_func_expr ∷ sn_policy_expr ∷ sn_group_expr ∷ sn_arch_expr ∷ sn_map_expr
    ∷ sn_system_expr ∷ sn_each_expr ∷ sn_query_expr ∷ sn_enum_expr ∷ sn_enum_variant ∷ sn_sum_expr
    ∷ sn_sum_variant ∷ sn_type_ref ∷ sn_type_array ∷ sn_type_shaped_array ∷ sn_type_tuple
    ∷ sn_type_handle ∷ sn_type_eff ∷ sn_type_proc ∷ sn_type_func ∷ sn_type_def_name
    ∷ sn_func_def_name ∷ sn_field_name ∷ sn_param_name ∷ sn_callee_name ∷ sn_query_ref
    ∷ sn_query_bind ∷ sn_eff ∷ sn_alloc_type ∷ sn_name_ref ∷ sn_policy_ref ∷ sn_error ∷ []

named_in : List SyntaxNodeKind → String → Option SyntaxNodeKind
named_in [] name = none
named_in (k ∷ ks) name = if syntax_node_kind_name k == name then some k else named_in ks name

named_in-name : (k : SyntaxNodeKind) → named_in all_kinds (syntax_node_kind_name k) ≡ some k
unfolding named_in syntax_node_kind_name
named_in-name sn_source_file = refl
named_in-name _ = refl

-- No two node kinds print the same name.
pub syntax_node_kind_name_injective :
    (a b : SyntaxNodeKind) → syntax_node_kind_name a ≡ syntax_node_kind_name b → a ≡ b
syntax_node_kind_name_injective a b e =
    cc (named_in-name a, named_in-name b, ap (named_in all_kinds) e)
