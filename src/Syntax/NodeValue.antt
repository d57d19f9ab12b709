-- ===== src/Syntax/NodeValue.antt =====
-- The values of the enum `SyntaxNodeKind` of syntax/syntax_tree.h, by which kinds are compared.
use arche.Base.{ℕ, Bool, ◌==◌, leb, ◌&&◌}
use arche.Syntax.NodeKind.{SyntaxNodeKind}
use arche.Syntax.NodeKind.{sn_source_file}
use arche.Syntax.NodeKind.{sn_world_decl}
use arche.Syntax.NodeKind.{sn_archetype_decl}
use arche.Syntax.NodeKind.{sn_proc_decl}
use arche.Syntax.NodeKind.{sn_map_decl}
use arche.Syntax.NodeKind.{sn_func_decl}
use arche.Syntax.NodeKind.{sn_func_group_decl}
use arche.Syntax.NodeKind.{sn_static_decl}
use arche.Syntax.NodeKind.{sn_const_decl}
use arche.Syntax.NodeKind.{sn_default_decl}
use arche.Syntax.NodeKind.{sn_use_decl}
use arche.Syntax.NodeKind.{sn_region}
use arche.Syntax.NodeKind.{sn_run_decl}
use arche.Syntax.NodeKind.{sn_param_list}
use arche.Syntax.NodeKind.{sn_param}
use arche.Syntax.NodeKind.{sn_out_param}
use arche.Syntax.NodeKind.{sn_out_arg}
use arche.Syntax.NodeKind.{sn_write_param}
use arche.Syntax.NodeKind.{sn_field_decl}
use arche.Syntax.NodeKind.{sn_return_types}
use arche.Syntax.NodeKind.{sn_arg_list}
use arche.Syntax.NodeKind.{sn_bind_stmt}
use arche.Syntax.NodeKind.{sn_assign_stmt}
use arche.Syntax.NodeKind.{sn_for_stmt}
use arche.Syntax.NodeKind.{sn_if_stmt}
use arche.Syntax.NodeKind.{sn_else_clause}
use arche.Syntax.NodeKind.{sn_break_stmt}
use arche.Syntax.NodeKind.{sn_continue_stmt}
use arche.Syntax.NodeKind.{sn_run_stmt}
use arche.Syntax.NodeKind.{sn_expr_stmt}
use arche.Syntax.NodeKind.{sn_return_stmt}
use arche.Syntax.NodeKind.{sn_multi_bind_stmt}
use arche.Syntax.NodeKind.{sn_proc_call_stmt}
use arche.Syntax.NodeKind.{sn_each_field_stmt}
use arche.Syntax.NodeKind.{sn_block}
use arche.Syntax.NodeKind.{sn_match_stmt}
use arche.Syntax.NodeKind.{sn_match_arm}
use arche.Syntax.NodeKind.{sn_literal_expr}
use arche.Syntax.NodeKind.{sn_name_expr}
use arche.Syntax.NodeKind.{sn_field_expr}
use arche.Syntax.NodeKind.{sn_index_expr}
use arche.Syntax.NodeKind.{sn_slice_expr}
use arche.Syntax.NodeKind.{sn_binary_expr}
use arche.Syntax.NodeKind.{sn_unary_expr}
use arche.Syntax.NodeKind.{sn_call_expr}
use arche.Syntax.NodeKind.{sn_alloc_expr}
use arche.Syntax.NodeKind.{sn_array_lit_expr}
use arche.Syntax.NodeKind.{sn_string_expr}
use arche.Syntax.NodeKind.{sn_entity_expr}
use arche.Syntax.NodeKind.{sn_tuple_lit}
use arche.Syntax.NodeKind.{sn_paren_expr}
use arche.Syntax.NodeKind.{sn_proc_expr}
use arche.Syntax.NodeKind.{sn_func_expr}
use arche.Syntax.NodeKind.{sn_policy_expr}
use arche.Syntax.NodeKind.{sn_group_expr}
use arche.Syntax.NodeKind.{sn_arch_expr}
use arche.Syntax.NodeKind.{sn_map_expr}
use arche.Syntax.NodeKind.{sn_system_expr}
use arche.Syntax.NodeKind.{sn_each_expr}
use arche.Syntax.NodeKind.{sn_query_expr}
use arche.Syntax.NodeKind.{sn_enum_expr}
use arche.Syntax.NodeKind.{sn_enum_variant}
use arche.Syntax.NodeKind.{sn_sum_expr}
use arche.Syntax.NodeKind.{sn_sum_variant}
use arche.Syntax.NodeKind.{sn_type_ref}
use arche.Syntax.NodeKind.{sn_type_array}
use arche.Syntax.NodeKind.{sn_type_shaped_array}
use arche.Syntax.NodeKind.{sn_type_tuple}
use arche.Syntax.NodeKind.{sn_type_handle}
use arche.Syntax.NodeKind.{sn_type_eff}
use arche.Syntax.NodeKind.{sn_type_proc}
use arche.Syntax.NodeKind.{sn_type_func}
use arche.Syntax.NodeKind.{sn_type_def_name}
use arche.Syntax.NodeKind.{sn_func_def_name}
use arche.Syntax.NodeKind.{sn_field_name}
use arche.Syntax.NodeKind.{sn_param_name}
use arche.Syntax.NodeKind.{sn_callee_name}
use arche.Syntax.NodeKind.{sn_query_ref}
use arche.Syntax.NodeKind.{sn_query_bind}
use arche.Syntax.NodeKind.{sn_eff}
use arche.Syntax.NodeKind.{sn_alloc_type}
use arche.Syntax.NodeKind.{sn_name_ref}
use arche.Syntax.NodeKind.{sn_policy_ref}
use arche.Syntax.NodeKind.{sn_error}

unfoldable pub node_kind_value : SyntaxNodeKind → ℕ
node_kind_value sn_source_file = 0
node_kind_value sn_world_decl = 1
node_kind_value sn_archetype_decl = 2
node_kind_value sn_proc_decl = 3
node_kind_value sn_map_decl = 4
node_kind_value sn_func_decl = 5
node_kind_value sn_func_group_decl = 6
node_kind_value sn_static_decl = 7
node_kind_value sn_const_decl = 8
node_kind_value sn_default_decl = 9
node_kind_value sn_use_decl = 10
node_kind_value sn_region = 11
node_kind_value sn_run_decl = 12
node_kind_value sn_param_list = 13
node_kind_value sn_param = 14
node_kind_value sn_out_param = 15
node_kind_value sn_out_arg = 16
node_kind_value sn_write_param = 17
node_kind_value sn_field_decl = 18
node_kind_value sn_return_types = 19
node_kind_value sn_arg_list = 20
node_kind_value sn_bind_stmt = 21
node_kind_value sn_assign_stmt = 22
node_kind_value sn_for_stmt = 23
node_kind_value sn_if_stmt = 24
node_kind_value sn_else_clause = 25
node_kind_value sn_break_stmt = 26
node_kind_value sn_continue_stmt = 27
node_kind_value sn_run_stmt = 28
node_kind_value sn_expr_stmt = 29
node_kind_value sn_return_stmt = 30
node_kind_value sn_multi_bind_stmt = 31
node_kind_value sn_proc_call_stmt = 32
node_kind_value sn_each_field_stmt = 33
node_kind_value sn_block = 34
node_kind_value sn_match_stmt = 35
node_kind_value sn_match_arm = 36
node_kind_value sn_literal_expr = 37
node_kind_value sn_name_expr = 38
node_kind_value sn_field_expr = 39
node_kind_value sn_index_expr = 40
node_kind_value sn_slice_expr = 41
node_kind_value sn_binary_expr = 42
node_kind_value sn_unary_expr = 43
node_kind_value sn_call_expr = 44
node_kind_value sn_alloc_expr = 45
node_kind_value sn_array_lit_expr = 46
node_kind_value sn_string_expr = 47
node_kind_value sn_entity_expr = 48
node_kind_value sn_tuple_lit = 49
node_kind_value sn_paren_expr = 50
node_kind_value sn_proc_expr = 51
node_kind_value sn_func_expr = 52
node_kind_value sn_policy_expr = 53
node_kind_value sn_group_expr = 54
node_kind_value sn_arch_expr = 55
node_kind_value sn_map_expr = 56
node_kind_value sn_system_expr = 57
node_kind_value sn_each_expr = 58
node_kind_value sn_query_expr = 59
node_kind_value sn_enum_expr = 60
node_kind_value sn_enum_variant = 61
node_kind_value sn_sum_expr = 62
node_kind_value sn_sum_variant = 63
node_kind_value sn_type_ref = 64
node_kind_value sn_type_array = 65
node_kind_value sn_type_shaped_array = 66
node_kind_value sn_type_tuple = 67
node_kind_value sn_type_handle = 68
node_kind_value sn_type_eff = 69
node_kind_value sn_type_proc = 70
node_kind_value sn_type_func = 71
node_kind_value sn_type_def_name = 72
node_kind_value sn_func_def_name = 73
node_kind_value sn_field_name = 74
node_kind_value sn_param_name = 75
node_kind_value sn_callee_name = 76
node_kind_value sn_query_ref = 77
node_kind_value sn_query_bind = 78
node_kind_value sn_eff = 79
node_kind_value sn_alloc_type = 80
node_kind_value sn_name_ref = 81
node_kind_value sn_policy_ref = 82
node_kind_value sn_error = 83

abbrev pub is_kind : SyntaxNodeKind → SyntaxNodeKind → Bool
is_kind kind k = node_kind_value k == node_kind_value kind

abbrev pub is_expr_kind : SyntaxNodeKind → Bool
is_expr_kind k =
    leb (node_kind_value sn_literal_expr) (node_kind_value k)
    && leb (node_kind_value k) (node_kind_value sn_paren_expr)

abbrev pub is_type_kind : SyntaxNodeKind → Bool
is_type_kind k =
    leb (node_kind_value sn_type_ref) (node_kind_value k)
    && leb (node_kind_value k) (node_kind_value sn_type_func)
