-- ===== src/Parser/Types.antt =====
-- parser/parser.c: types, and the signatures of procs and funcs. A routine has the C function's
-- name; one that is entered at stage `moved` is called behind a consumed token.
use arche.Parser.Shared.{ℕ, Bool, true, false, not, ◌&&◌, ◌||◌, if◌then◌else◌, Stage, inside}
use arche.Parser.Shared.{moved, Begun, fresh_begun, inside_begun, moved_begun, M, ◌>>=◌, ◌>>◌}
use arche.Parser.Shared.{done, fail, stop, orelse, branch, call, call_first, loop, Procs}
use arche.Parser.Shared.{TypeForm}
use arche.Parser.Shared.{report, refuse, syntax_wrap, syntax_cp, if_at, current_spells, on}
use arche.Parser.Shared.{expect}
use arche.Parser.Shared.{accept, repeat, commas, optional_list, SyntaxNodeKind}
use arche.Lexer.Kind.{tok_ident, tok_proc, tok_system, tok_func, tok_own, tok_lparen}
use arche.Lexer.Kind.{tok_rparen}
use arche.Lexer.Kind.{tok_lbracket, tok_rbracket, tok_comma, tok_dot, tok_dotdotdot, tok_colon}
use arche.Lexer.Kind.{tok_lt, tok_gt, tok_arrow}
use arche.Syntax.NodeKind.{sn_param, sn_out_param, sn_type_ref, sn_type_array}
use arche.Syntax.NodeKind.{sn_type_shaped_array, sn_type_handle, sn_type_eff, sn_type_proc}
use arche.Syntax.NodeKind.{sn_type_func, sn_param_name}

abbrev pub form : SyntaxNodeKind → Bool → TypeForm
form kind meta = record { syntax_kind = kind; is_type_meta = meta }

module _ {n : ℕ} (r : Procs n) where
  -- `parse_type` where the caller has consumed a token, and where a loop's body begins with it.
  abbrev pub parse_type : {o : ℕ} → M n o moved moved (Unit {0})
  parse_type = call r.type_form >>= λ _. done tt

  abbrev pub parse_type_first : {o : ℕ} → M n o inside moved (Unit {0})
  parse_type_first = call_first r.type_form >>= λ _. done tt

  module _ {o : ℕ} where
    -- One parameter, up to the comma or the parenthesis behind it.
    unfoldable pub parse_param : M n o inside moved (Unit {0})
    parse_param = do
      param_cp ← syntax_cp
      accept tok_own
      param_name_cp ← syntax_cp
      expect tok_ident "Expected parameter name"
      syntax_wrap param_name_cp sn_param_name
      expect tok_colon "Expected ':' after parameter name"
      parse_type
      syntax_wrap param_cp sn_param

    -- One out-parameter, up to the comma or the parenthesis behind it.
    unfoldable pub parse_out_param : M n o inside moved (Unit {0})
    parse_out_param = do
      out_param_cp ← syntax_cp
      if_at tok_own (refuse "an out-parameter is owned by definition — drop `own`") (done tt)
      out_param_name_cp ← syntax_cp
      expect tok_ident "Expected out-parameter name"
      syntax_wrap out_param_name_cp sn_param_name
      expect tok_colon "Expected ':' after out-parameter name"
      parse_type
      syntax_wrap out_param_cp sn_out_param

  module _ {o : ℕ} where
    unfoldable pub parse_param_list_body : Bool → M n o moved moved (Unit {0})
    parse_param_list_body is_extern = if_at tok_rparen (done tt) (
        repeat λ o again.
          if_at tok_dotdotdot
            (do
              if is_extern
                  then done tt
                  else report "`...` variadic marker is only valid in extern signatures"
              on tok_dotdotdot (stop tt) (stop tt))
            (do parse_param; on tok_comma (if_at tok_rparen (stop tt) again) (stop tt)))

    unfoldable pub parse_proc_out_list : M n o moved moved (Unit {0})
    parse_proc_out_list =
        if_at tok_arrow
          (refuse
            "a proc has no return type (`->` is a func-only marker) — declare results as out-parameters in a `(...)` list")
          (on tok_lparen
            (do
              optional_list tok_rparen (λ o. parse_out_param)
              expect tok_rparen "Expected ')' after out-parameters")
            (done tt))

    unfoldable pub parse_func_return : Bool → M n o moved moved (Unit {0})
    parse_func_return is_extern =
        on tok_arrow
          (if_at tok_lparen
            (refuse
              "a `->` return is a single type; for multiple results drop the `->` and write an out-parameter list `(out, …)` instead")
            parse_type)
          (if_at tok_lparen parse_proc_out_list (
            if is_extern then done tt else refuse "Expected '->' or an out-parameter list '(...)'"))

    unfoldable pub parse_proc_sig : Bool → M n o moved moved (Unit {0})
    parse_proc_sig is_extern = do
      expect tok_lparen "Expected '(' after 'proc'"
      parse_param_list_body is_extern
      expect tok_rparen "Expected ')' after parameters"
      parse_proc_out_list

    unfoldable pub parse_func_sig : Bool → M n o moved moved (Unit {0})
    parse_func_sig is_extern = do
      expect tok_lparen "Expected '(' after 'func'"
      parse_param_list_body is_extern
      expect tok_rparen "Expected ')' after parameters"
      parse_func_return is_extern

    -- The rest of a failing type is a node too: `kind` is the form's kind when it fails.
    abbrev pub or_wrap : {i j : Stage} {A : Type 0} → ℕ → SyntaxNodeKind → M n o i j A → M n o i j A
    or_wrap cp kind m = orelse m (syntax_wrap cp kind >> fail)

    -- The element's name behind the dimensions.
    unfoldable pub parse_element_name : M n o moved moved (Unit {0})
    parse_element_name = do
      expect tok_ident "Expected element type name after array brackets (e.g. `[]int`)"
      on tok_dot (expect tok_ident "Expected type name after '.' in qualified element type")
          (done tt)

    -- The dimensions behind the first `[`: whether the function has to return 1 at once, for a
    -- dimension that is malformed, and whether one of them has a size.
    unfoldable pub parse_dimensions : Bool → M n o moved moved (Bool × Bool)
    parse_dimensions = loop λ o again any_number.
        on tok_rbracket (on tok_lbracket (again any_number) (stop (false, any_number))) (
          branch (call_first r.expression)
            (λ _.
              on tok_rbracket (on tok_lbracket (again true) (stop (false, true)))
                (do report "Expected ']' after array size expression"; stop (true, true)))
            (stop (true, any_number)))

    -- `handle<Name>`, behind the `<`.
    unfoldable pub parse_handle_type : M n o moved moved TypeForm
    parse_handle_type = do
      expect tok_ident "Expected archetype name after 'handle<'"
      expect tok_gt "Expected '>' after archetype name in handle type"
      done (form sn_type_handle false)

    -- `Eff(T…)`, behind the parenthesis.
    unfoldable pub parse_eff_type : M n o moved moved TypeForm
    parse_eff_type = do
      if_at tok_rparen (done tt) (commas (λ o. parse_type_first))
      expect tok_rparen "Expected ')' to close the Eff(...) out-slot type list"
      done (form sn_type_eff false)

    unfoldable pub parse_array_type : M n o moved moved TypeForm
    parse_array_type = do
      (returned_early, any_number) ← parse_dimensions false
      if returned_early then done (form sn_type_ref false) else do
        parse_element_name
        done (form (if any_number then sn_type_shaped_array else sn_type_array) false)

  module _ {o : ℕ} {i : Stage} ⦃b : Begun i⦄ where
    unfoldable pub parse_named_type : M n o i moved TypeForm
    parse_named_type = do
      is_handle ← current_spells "handle"
      is_eff ← current_spells "Eff"
      is_type_kw ← current_spells "type"
      is_archetype ← current_spells "archetype"
      is_opaque ← current_spells "opaque"
      expect tok_ident "Expected type name"
      let plain : M n o moved moved TypeForm =
          if is_type_kw
          then done (form sn_type_ref true)
          else if is_handle
          then on tok_lt parse_handle_type (done (form sn_type_ref false))
          else if is_eff
          then on tok_lparen parse_eff_type (done (form sn_type_ref false))
          else done (form sn_type_ref false)
      if is_archetype || is_opaque
          then done (form sn_type_ref false)
          else if not is_handle && not is_type_kw
          then on tok_dot
              (do
                expect tok_ident "Expected type name after '.' in qualified type (e.g. io.file)"
                done (form sn_type_ref false))
              plain
          else plain

    -- `parse_type_inner`, with the node that `parse_type_form` makes of what a failing one leaves.
    unfoldable pub parse_type_inner : ℕ → M n o i moved TypeForm
    parse_type_inner cp =
        on tok_proc
          (or_wrap cp sn_type_proc (parse_proc_sig false) >> done (form sn_type_proc true))
          (on tok_func
            (or_wrap cp sn_type_func (parse_func_sig false) >> done (form sn_type_func true))
            (on tok_system (done (form sn_type_ref true))
              (or_wrap cp sn_type_ref (on tok_lbracket parse_array_type parse_named_type))))

    unfoldable pub parse_type_form : M n o i moved TypeForm
    parse_type_form = do
      cp ← syntax_cp
      type_form ← parse_type_inner cp
      syntax_wrap cp type_form.syntax_kind
      done type_form
