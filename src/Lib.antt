-- ===== src/Lib.antt =====
-- The guards of django-graphex: what a GraphQL request may cost, how deep it may nest, which
-- fields and errors it gets to see, who may act on a model, how its lists are paged, how many
-- streams an account holds, and how a websocket connection opens, serves and closes.
--
-- The parts, and how they interact. A request's document is validated by two rules,
-- CostLimitValidationRule (django_graphex/cost.py) and DepthLimitValidationRule
-- (django_graphex/validation.py). Both ask find_fragment_cycle
-- (django_graphex/_fragment_cycles.py) about the whole document when they enter it, and stay
-- silent where it finds a cycle, which graphql-core reports; both skip selections by
-- is_selection_skipped (django_graphex/_directives_eval.py); both walk with a stack of their
-- own, a memo for spreads and a guard against cycles. The resolvers run behind the middlewares
-- of django_graphex/security.py, which also formats the errors of a response. List fields page
-- their rows by the classes of django_graphex/paginations. A stream over SSE holds a lease in
-- Redis (django_graphex/subscriptions/transports/_sse_lease.py); a stream over a websocket is an
-- operation of the consumer in django_graphex/subscriptions/transports/ws.py, which asks the
-- same validation rules and formats its errors by django_graphex/security.py. A resolver of a
-- model's type asks the permission classes of django_graphex/permissions.py. Where schemas are
-- scoped by permission, a request runs against the one that
-- django_graphex/core/permission_signature_cache.py keeps for its user's grants. Their limits
-- are read from django_graphex/settings.py, as arguments here.
--
-- Files and code:
--   Common, Machine         shared notation, lists over native numbers, Python's int, and loops run
--                           on fuel with what it takes to get from one state to another
--   Graphql/Ast             the syntax tree and the schema as the guards read them; Runtime holds
--                           the functions of graphql-core and Python that they call
--   Graphql/Directives      _safe_get_directive_values, is_selection_skipped
--   Graphql/Ranked          documents whose fragments can be ranked
--   StrConv/Snake           to_snake_case of django_graphex/_strconv.py, its two substitutions as
--                           passes over code points
--   Fragments               find_fragment_cycle: `build` is its first loop, `gather` and `scan` the
--                           inner ones, `reduce` and `release` the loop over the queue; the files
--                           below it lead to Fragments/Verdict
--   Cost/Weights            _CostAnalyzer's costs of one field, and its list multiplier
--   Cost/Analyzer           _selection_set_cost: `Walk` holds the stack, the memo, the active
--                           fragments and the counter of cut cycles, `step` is one round of the
--                           loop, `visit` treats a selection, `close_level` the end of a level
--   Cost/Formula            the cost by recursion, with neither stack nor memo
--   Cost/Report             analyze_cost and CostLimitValidationRule
--   Depth/Limits            _Constraint, the test of a level, and the budget of a memo key
--   Depth/Walker            _walk, as in Cost/Analyzer; its memo holds the spreads proven clean
--   Depth/Rule              DepthLimitValidationRule, over all operations of a document
--   Depth/Reference         the first violation, by recursion; Depth/Budget reads it as a budget of
--                           levels
--   Leases/Redis            the commands that the scripts call and their documented behaviour; the
--                           set keeps its members in the order of writing
--   Leases/Scripts          _ACQUIRE, _RENEW, _RELEASE, and histories of them, delays included
--   Leases/Client           _Lease; its list of calls records what reaches the client
--   Pagination/Size         _positive_int, _resolve_page_size
--   Pagination/Source       _pk_tiebreak_ordering, and the ordering that a paginator resolves
--   Pagination/Paginators   paginate_queryset and prefetch_window_slice of the two paginators
--   Pagination/Terms        _normalize_ordering_term, _resolve_ordering, _validate_ordering_terms
--   Pagination/Queryset     _effective_queryset_ordering, _automatic_null_ordering, _apply_ordering
--   Pagination/Inmemory     _append_model_pk_ordering and _inmemory_order, over the ranks of the
--                           rows' attributes
--   Cursor/Codec            encode_cursor, decode_cursor_parts of CursorGraphqlPagination
--   Cursor/Keyset           _inmemory_after_cursor, and the database's predicates as tests of a row
--   Cursor/Order            _inmemory_keyset_order, and the order that it gives
--   Cursor/Pages            _inmemory_cursor_start and paginate_queryset of a list; `read_pages` is a
--                           client that follows the cursors
--   Permissions/Kwargs      supported_kwargs of django_graphex/permissions.py, and what a Python call
--                           accepts by keyword
--   Permissions/Policies    the permission classes; a class is the parameters and the body of its
--                           has_permission, a template for str.format a list of pieces
--   Permissions/Labels      required_perms_for of django_graphex/core/perm_labels.py
--   Security/Middleware     DisableIntrospectionMiddleware, AuthenticatedFieldsMiddleware
--   Security/Errors         internal_error_cause, the marks, and format_client_error; an error
--                           holds the chain of its original errors up to a repetition
--   SchemaCache/Signature   permission_signature, and signature_grants of
--                           django_graphex/core/_flat_gfk_scope.py
--   SchemaCache/Cache       _SignatureSchemaCache: the entries are its OrderedDict, `get` and `store`
--                           the sections under the entry lock, `sections` what all threads do
--   Socket/Json             a decoded frame
--   Socket/Startup          _run_operation of ws.py up to its source, and the functions of
--                           transports/__init__.py that it calls
--   Socket/State            the consumer's attributes, its tasks by number, and what the socket is told
--   Socket/Teardown         connect, _close, disconnect, _init_watchdog, _cancel_operation
--   Socket/Handlers         receive, receive_json and the handlers of the messages
--   Socket/Steps            the pieces of an operation's task, the teardown's pieces, and runs of events
--   Socket/Definitions      the invariant; Socket/Moves has the steps as a relation
--   Settings/Reader         _BaseAPISettings: `get_attr` is reading an attribute, kept or not
--
-- Bounds and fuel. The walks of Cost and Depth run on fuel: `enough` counts two steps for each
-- selection, the fragments of spreads unfolded, and one at the end, and the theorems ask for no
-- more. `levels`, the depth to which fragments are unfolded, is one more than the number of
-- fragments, since a document without a cycle ranks its fragments within their number. The loops
-- of Fragments run on the number of selection sets of a fragment and the number of fragments, which
-- the proofs show to be enough. Numbers are naturals, and ℤ where the source's can be negative;
-- Python's do not overflow. Lease times are the milliseconds of the server's clock.
-- A connection runs on a list of events of any length and order: a handler or a task goes from one
-- wait to the next in one event, and an event that cannot happen changes nothing. A cancelled
-- operation is torn down in one event, since the steps of other tasks in between read and write
-- nothing of it. A client that follows cursors runs on a number of rounds; the number of rows is
-- enough.
--
-- Parameters. graphql-core's directive values, named types, schema and type map, Python's
-- reading of a number from a text, Redis, the ORM's order_by and the rows it gives, the removal
-- of suggestions from messages, the opaque ID of an error, the schema pruner, the digest and the
-- addresses of objects are arguments, and so are the functions of graphql-core that start an
-- operation (Core), base64 and the reading of printed column values (Columns), and has_perms of
-- Django's users. TypeMap states what is asked of a schema's type map, Laws what is asked of
-- Redis, IsReplacing of order_by, IsReadBack of the columns, IsEach of has_perms.
--
-- Not modelled: the messages of the validation rules and the warnings of the analyzer; recursion
-- errors of deep documents; the asyncio part of the leases; ORM expressions in a queryset's own
-- ordering, Decimal boundaries and page info of the paginators; Python's digits and small
-- letters outside of ASCII; _strip_suggestion and the log of internal errors; the build lock of
-- the cache; the schema cache of a connection and the driver behind its sources; the building of
-- schemas, views, mutations, filters, uploads and the rest of subscriptions, which are largely
-- glue between Django and graphql-core.
pub mod Common
pub mod Machine
pub mod Graphql
pub mod StrConv
pub mod Fragments
pub mod Cost
pub mod Cursor
pub mod Depth
pub mod Leases
pub mod Pagination
pub mod Permissions
pub mod Security
pub mod SchemaCache
pub mod Settings
pub mod Socket
