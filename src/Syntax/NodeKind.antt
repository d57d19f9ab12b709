-- ===== src/Syntax/NodeKind.antt =====
-- syntax/syntax_tree.h `SyntaxNodeKind`, and `syntax_node_kind_name` of syntax/syntax_tree.c.
use Prim.Native.String.{String}

pub data SyntaxNodeKind : Type 0 where
  sn_source_file sn_world_decl sn_archetype_decl sn_proc_decl sn_map_decl : SyntaxNodeKind
  sn_func_decl sn_func_group_decl sn_static_decl sn_const_decl sn_default_decl : SyntaxNodeKind
  sn_use_decl sn_region sn_run_decl sn_param_list sn_param : SyntaxNodeKind
  sn_out_param sn_out_arg sn_write_param sn_field_decl sn_return_types : SyntaxNodeKind
  sn_arg_list sn_bind_stmt sn_assign_stmt sn_for_stmt sn_if_stmt : SyntaxNodeKind
  sn_else_clause sn_break_stmt sn_continue_stmt sn_run_stmt sn_expr_stmt : SyntaxNodeKind
  sn_return_stmt sn_multi_bind_stmt sn_proc_call_stmt sn_each_field_stmt sn_block : SyntaxNodeKind
  sn_match_stmt sn_match_arm sn_literal_expr sn_name_expr sn_field_expr : SyntaxNodeKind
  sn_index_expr sn_slice_expr sn_binary_expr sn_unary_expr sn_call_expr : SyntaxNodeKind
  sn_alloc_expr sn_array_lit_expr sn_string_expr sn_entity_expr sn_tuple_lit : SyntaxNodeKind
  sn_paren_expr sn_proc_expr sn_func_expr sn_policy_expr sn_group_expr : SyntaxNodeKind
  sn_arch_expr sn_map_expr sn_system_expr sn_each_expr sn_query_expr : SyntaxNodeKind
  sn_enum_expr sn_enum_variant sn_sum_expr sn_sum_variant sn_type_ref : SyntaxNodeKind
  sn_type_array sn_type_shaped_array sn_type_tuple sn_type_handle sn_type_eff : SyntaxNodeKind
  sn_type_proc sn_type_func sn_type_def_name sn_func_def_name sn_field_name : SyntaxNodeKind
  sn_param_name sn_callee_name sn_query_ref sn_query_bind sn_eff : SyntaxNodeKind
  sn_alloc_type sn_name_ref sn_policy_ref sn_error : SyntaxNodeKind

-- Every kind has a case, so the "?" behind the switch is never returned.
unfoldable pub syntax_node_kind_name : SyntaxNodeKind → String
syntax_node_kind_name sn_source_file = "SOURCE_FILE"
syntax_node_kind_name sn_world_decl = "WORLD_DECL"
syntax_node_kind_name sn_archetype_decl = "ARCHETYPE_DECL"
syntax_node_kind_name sn_proc_decl = "PROC_DECL"
syntax_node_kind_name sn_map_decl = "SYS_DECL"
syntax_node_kind_name sn_func_decl = "FUNC_DECL"
syntax_node_kind_name sn_func_group_decl = "FUNC_GROUP_DECL"
syntax_node_kind_name sn_static_decl = "STATIC_DECL"
syntax_node_kind_name sn_const_decl = "CONST_DECL"
syntax_node_kind_name sn_default_decl = "DEFAULT_DECL"
syntax_node_kind_name sn_use_decl = "USE_DECL"
syntax_node_kind_name sn_region = "REGION"
syntax_node_kind_name sn_run_decl = "RUN_DECL"
syntax_node_kind_name sn_param_list = "PARAM_LIST"
syntax_node_kind_name sn_param = "PARAM"
syntax_node_kind_name sn_out_param = "OUT_PARAM"
syntax_node_kind_name sn_out_arg = "OUT_ARG"
syntax_node_kind_name sn_write_param = "WRITE_PARAM"
syntax_node_kind_name sn_field_decl = "FIELD_DECL"
syntax_node_kind_name sn_return_types = "RETURN_TYPES"
syntax_node_kind_name sn_arg_list = "ARG_LIST"
syntax_node_kind_name sn_bind_stmt = "BIND_STMT"
syntax_node_kind_name sn_assign_stmt = "ASSIGN_STMT"
syntax_node_kind_name sn_for_stmt = "FOR_STMT"
syntax_node_kind_name sn_if_stmt = "IF_STMT"
syntax_node_kind_name sn_else_clause = "ELSE_CLAUSE"
syntax_node_kind_name sn_break_stmt = "BREAK_STMT"
syntax_node_kind_name sn_continue_stmt = "CONTINUE_STMT"
syntax_node_kind_name sn_run_stmt = "RUN_STMT"
syntax_node_kind_name sn_expr_stmt = "EXPR_STMT"
syntax_node_kind_name sn_return_stmt = "RETURN_STMT"
syntax_node_kind_name sn_multi_bind_stmt = "MULTI_BIND_STMT"
syntax_node_kind_name sn_proc_call_stmt = "PROC_CALL_STMT"
syntax_node_kind_name sn_each_field_stmt = "EACH_FIELD_STMT"
syntax_node_kind_name sn_block = "BLOCK"
syntax_node_kind_name sn_match_stmt = "MATCH_STMT"
syntax_node_kind_name sn_match_arm = "MATCH_ARM"
syntax_node_kind_name sn_literal_expr = "LITERAL_EXPR"
syntax_node_kind_name sn_name_expr = "NAME_EXPR"
syntax_node_kind_name sn_field_expr = "FIELD_EXPR"
syntax_node_kind_name sn_index_expr = "INDEX_EXPR"
syntax_node_kind_name sn_slice_expr = "SLICE_EXPR"
syntax_node_kind_name sn_binary_expr = "BINARY_EXPR"
syntax_node_kind_name sn_unary_expr = "UNARY_EXPR"
syntax_node_kind_name sn_call_expr = "CALL_EXPR"
syntax_node_kind_name sn_alloc_expr = "ALLOC_EXPR"
syntax_node_kind_name sn_array_lit_expr = "ARRAY_LIT_EXPR"
syntax_node_kind_name sn_string_expr = "STRING_EXPR"
syntax_node_kind_name sn_entity_expr = "ENTITY_EXPR"
syntax_node_kind_name sn_tuple_lit = "TUPLE_LIT"
syntax_node_kind_name sn_paren_expr = "PAREN_EXPR"
syntax_node_kind_name sn_proc_expr = "PROC_EXPR"
syntax_node_kind_name sn_func_expr = "FUNC_EXPR"
syntax_node_kind_name sn_policy_expr = "POLICY_EXPR"
syntax_node_kind_name sn_group_expr = "GROUP_EXPR"
syntax_node_kind_name sn_arch_expr = "ARCH_EXPR"
syntax_node_kind_name sn_map_expr = "SYS_EXPR"
syntax_node_kind_name sn_system_expr = "SYSTEM_EXPR"
syntax_node_kind_name sn_each_expr = "EACH_EXPR"
syntax_node_kind_name sn_query_expr = "QUERY_EXPR"
syntax_node_kind_name sn_enum_expr = "ENUM_EXPR"
syntax_node_kind_name sn_enum_variant = "ENUM_VARIANT"
syntax_node_kind_name sn_sum_expr = "SUM_EXPR"
syntax_node_kind_name sn_sum_variant = "SUM_VARIANT"
syntax_node_kind_name sn_type_ref = "TYPE_REF"
syntax_node_kind_name sn_type_array = "TYPE_ARRAY"
syntax_node_kind_name sn_type_shaped_array = "TYPE_SHAPED_ARRAY"
syntax_node_kind_name sn_type_tuple = "TYPE_TUPLE"
syntax_node_kind_name sn_type_handle = "TYPE_HANDLE"
syntax_node_kind_name sn_type_eff = "TYPE_EFF"
syntax_node_kind_name sn_type_proc = "TYPE_PROC"
syntax_node_kind_name sn_type_func = "TYPE_FUNC"
syntax_node_kind_name sn_type_def_name = "TYPE_DEF_NAME"
syntax_node_kind_name sn_func_def_name = "FUNC_DEF_NAME"
syntax_node_kind_name sn_field_name = "FIELD_NAME"
syntax_node_kind_name sn_param_name = "PARAM_NAME"
syntax_node_kind_name sn_callee_name = "CALLEE_NAME"
syntax_node_kind_name sn_query_ref = "QUERY_REF"
syntax_node_kind_name sn_query_bind = "QUERY_BIND"
syntax_node_kind_name sn_eff = "EFF"
syntax_node_kind_name sn_alloc_type = "ALLOC_TYPE"
syntax_node_kind_name sn_name_ref = "NAME_REF"
syntax_node_kind_name sn_policy_ref = "POLICY_REF"
syntax_node_kind_name sn_error = "ERROR"
