-- ===== src/Lib.antt =====
-- The front end and the back end of the Arche compiler, as far as they are plain functions of bytes,
-- tables and trees: the lexer, the parser, the syntax tree, the command line, the choice of device
-- variants, the arena of types, and the WebAssembly encoder.
--
-- The parts and how they interact:
--
-- * Lexer (lexer/lexer.c, lexer/lexer.h) turns the bytes of a source into tokens. Kind holds TokenKind
--   and token_kind_name; Token the struct Token, make_token, error_token and the doc comments; State
--   the struct Lexer with peek, advance and lexer_init; Words comments, identifiers, keywords and
--   directives; Literals numbers, characters and strings; Next lexer_next_token, its operators and
--   lexer_tokenize; IntLit arche_int_lit. The other children are proofs.
-- * Parser (parser/parser.c, parser/parser.h) calls the lexer for one token after the other and builds
--   the tree with the builder of Syntax. State holds the struct Parser with advance, error and
--   synchronize; Types, Forms, Kernels, Operands, Expressions, Statements, Blocks, Decls and Regions
--   the routines parse_*, each under its C name, with the branches of the long ones as routines of
--   their own; Program parse_program and parse_source. A routine (Monad) is a function of the state
--   that returns a value or fails (`return 0`), with the state after it, the steps that led there
--   (Steps: the calls of advance, error, synchronize and the builder, and the writes of flags), and a
--   bound on what is left of the source. Routines are written with check, match and `error; return 0`
--   (Routines) and with loops and recursive calls (Recursion). Ahead, Reads, Reading, Runs, Kept,
--   Lossless, Errors, Results, Grammar and Bodies are proofs.
-- * Syntax (syntax/syntax_tree.c, syntax/syntax_tree.h, syntax/syntax_view.c,
--   syntax/syntax_view.h, syntax/token_category.c): the parser pushes the tokens into a builder
--   and wraps ranges of them into nodes. Tree holds the tree and the builder
--   (syntax_builder_token, _wrap and _finish), NodeKind the kinds and their names, Category
--   arche_token_category, which the highlighter asks for a token's category; View holds the
--   accessors sv_* by which the analysis and the lowering read the tree, NodeValue the ranges of
--   kinds that they compare with. Calls has sequences of calls; Leaves, Spans and Ids are about
--   the trees that come of them, ViewEdges about the accessors.
-- * Semantic (semantic/sem_types.c, semantic/sem_types.h, semantic/sem_model.c,
--   semantic/sem_model.h, semantic/sem_ids.h, semantic/sem_hints.c, semantic/sem_hints.h): the
--   arena of types that the type checker works on, and the tables in which the analysis leaves
--   what it finds out about nodes for the lowering and the editor. TypeNode holds the nodes, Arena
--   the constructors tyid_of_*, tyid_backing and tyid_usable_as; an id is the place of a node in
--   the arena. Columns has the arrays that grow together, Model SemModel with its setters and
--   getters, Hints SemHints; Facts and HintFacts say what the tables promise, Tables, Setters and
--   HintSetters are proofs.
-- * Cli (cli/args.c, cli/args.h): the table-driven parser of arguments that every subcommand calls. Spec
--   holds forms_contain and first_form, Args args_parse, args_has and args_value.
-- * Compile (compile/variant_select.c): which backend a build takes for each device. VariantMap holds the
--   map and variant_map_parse, Manifest the reader of arche.toml, Resolve variant_map_load_resolved,
--   LibRoots arche_lib_roots, the directories that modules are searched in.
-- * Wasm (codegen/wasm_encode.c, codegen/wasm_encode.h): Buffer holds the byte buffer and the LEB128
--   writers, Module the module builder and wm_finish. Entries, Sections and Refinement describe what
--   the WebAssembly format asks for, and read the written bytes back.
-- * Base has the names that all parts share: lists, texts and tests over the native numbers.
--
-- How C is modelled. A byte is a number below 256, a text a list of bytes; a C string has no end mark
-- of its own, and reading behind its last byte gives the NUL. A `uint32_t` or `uint64_t` that can wrap
-- has its modulus written out; counts and sizes of arrays are taken to fit their C types. A struct is
-- a record, an enum a data type, a pointer that may be NULL an option; a function that changes a
-- struct returns it. Statics (the counter of node ids, the overrides of the command line) are fields
-- of the state or arguments. Storage is left out: malloc and realloc do not fail, and the functions
-- that only free are not modelled. `char` is signed; <ctype.h> is that of the C locale.
--
-- Loops. A loop over bytes has the bytes left as its fuel, which is enough because each round takes a
-- byte; the loop of lexer_tokenize has one round more than there are bytes, for the end mark. The
-- loops of wb_u and wb_i are recursion on the well-founded order of the numbers. args_parse is
-- structural recursion on the arguments. tyid_usable_as has the place of the type as its fuel, which
-- is enough because a backing stands before the types that it backs. The loop that doubles a capacity
-- has the id that needs room as its fuel, which is enough because a capacity is at least 1. A run of
-- these tables that C leaves undefined, an overflow of an int or an access out of bounds, is none.
--
-- The parser has no fuel. What is left of the source (Measure: the token at hand, and the tokens and
-- bytes that the lexer has) falls with each token consumed; a loop goes on, and a routine calls itself
-- or one that calls it, only behind a token, which the types of Recursion ask for. So every routine
-- returns or fails at every state. The limits of the source are in the model: 1000 comments in a row,
-- 1000 tokens in synchronize, 10000 declarations, 1000 binding targets, 1000 nested statements. The
-- depth of the C stack is not: parse_expression and parse_type nest without a limit. Messages are
-- shorter than the buffer of 512 bytes that error copies them to.
--
-- Not modelled. Semantic analysis but for the arena of types and the tables of facts, lowering and
-- code generation, which work on the tree and on tables of names; the commands and the runtime,
-- which are input and output. From the modelled files: sums, the interning of effects and the
-- printing of types; the name of a declaration behind its decorators and the doc comments
-- (syntax_view.c); args_usage, which prints; find_manifest and variant_manifest_dir, which search
-- the file system (the path and the bytes of arche.toml and the environment are arguments).
pub mod Base
pub mod Cli
pub mod Compile
pub mod Lexer
pub mod Parser
pub mod Semantic
pub mod Syntax
pub mod Wasm
