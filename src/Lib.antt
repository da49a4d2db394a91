-- ===== src/Lib.antt =====
-- Verification library of LogOcean, the SIEM of this repository: its detection engine and the
-- common information model (CIM) that the engine binds rules to.
--
-- The program. A parser turns a log line into a NormalizedEvent (app/models.py). For each event
-- the ingest pipeline calls DetectionEngine.evaluate_event (app/detection/engine.py): it flattens
-- the event to lower-case field names, and for each enabled rule checks the log source, the
-- binding to CIM data models, and the condition over the rule's selections. The binding needs the
-- event's membership, which tags_for (app/cim/match.py) computes from a registry of models
-- (app/cim/spec.py) that the engine resolves lazily and retries on a clock when that fails.
--
-- Before an event is stored, app/ingest_actions.py may drop, mask, route or sample it by rules
-- that the engine matches. Around the engine stand parts that meet it in the alerts: live
-- receivers hand their events to the ingest queue (app/streaming.py), whose workers write them in
-- groups; app/enrich/ranges.py says what kind of address an event comes from; analysts ask in
-- LOQL, which app/loql parses to a tree for the compiler to SQL; app/detection/correlation.py and
-- app/sourcehealth.py raise alerts from stored events, and app/threatintel from indicators in
-- them; app/killchain.py links alerts to chains; app/triage/suppression.py silences alerts;
-- app/response acts on them.
--
-- The files.
--   Prelude        lists, Boolean tests, dictionaries, sorting and results with errors
--   Text           Python's str as a list of code points: lower, strip, split, in, replace, digits;
--                  Digits has isdigit and int for the digits of all scripts
--   Value          JSON-like values, str() and repr() of them, and the event's record
--   Cim.Spec       app/cim/spec.py: CimSource, CimTerm, CimClause, CimModel, CimRegistry
--   Cim.Match      app/cim/match.py: the reference walk (_text, _raw_value, _term_hit,
--                  term_matches, clause_matches, model_matches)
--   Cim.Plan       app/cim/match.py: _compile, _plan, tags_for, clear_plan_cache
--   Cim.Agree, Cim.Cache   the plan against the walk, the plan cache against none
--   Detection.Flatten      flatten_event, _flatten_raw, _lookup
--   Detection.Glob, Encode, Scalar, Selection   _glob_to_re to _eval_selection
--   Detection.Condition    _Cond and _eval_condition; Run is how a run ends; Suffix, Total,
--                  Grammar and Print are about it
--   Detection.Logsource    _logsource_matches
--   Detection.Rule         Rule, rule_from_dict and the functions it calls
--   Detection.Gate         _log_once, _cim, reset_cim_cache, cim_tags, _gate, datamodels_match;
--                  Steps interleaves threads and resets as a step relation, Keeps
--                  and Threads have its invariant, Binding says what names mean
--   Detection.Engine       match_rule and DetectionEngine.evaluate_event
--   Loql           app/loql/parser.py, nodes.py, errors.py: Result, Nodes, Lexer, Tokens, Expr (_or to
--                  _func_call), Commands and Parser (_command, parse); Parser.Closed is the grammar of
--                  the trees, and the modules named Total, Places and Covers are about the
--                  parser and the lexer
--   Streaming      app/streaming.py: group_items, IngestQueue and its workers; Steps has the runs
--   Enrich.Ranges  app/enrich/ranges.py: parse_ip, scope and its memo, _build, _search
--   ThreatIntel    app/threatintel/matcher.py: the observables of an event, the token patterns, and
--                  IocIndex with its match; Keys, Found, Tables and Listed say what is hit
--   Triage         app/triage/suppression.py: Suppression, matches, SuppressionIndex
--   Correlation    app/detection/correlation.py: window_seconds, correlation_alert
--   IngestActions  app/ingest_actions.py: Raw (raw_get to walk_strings), Scrub, Mask (apply_mask,
--                  apply_route), Decide and Index (ActionIndex); Fresh, Drops and Counts are about them
--   KillChain      app/killchain.py: the tactics, _DisjointSet, the collecting of members,
--                  build_chains and _pivot_entities; Chains.Pairs and Chains.Components say what is linked
--   SourceHealth   app/sourcehealth.py: assess, human_age, the hash of silent_alert
--   Response       app/response: matches, execute and _run of engine.py, the reverts of revert.py
--                  over the queries of app/db.py, and the severity order of app/notify/channels.py
--   Samples, and the modules named Tests   concrete inputs and what the code gives on them
--
-- State. The globals of the CIM gate are the record CimState, passed from call to call; the plan
-- cache is an argument of tags_for with a heap that stands for the identity of registries. Each
-- section under the lock is one step, so Detection.Gate.Steps can interleave threads and resets
-- between the two locked sections of _gate. An exception is a value: `none` from the matching
-- functions is the Python exception that evaluate_event passes over, and `raise` a CimError.
--
-- Bounds and fuel. The condition parser runs on fuel, six times the number of tokens and six more:
-- each call of the descent consumes a token or goes one level down. bisect_right runs on as many
-- rounds as the list has elements, since each round shortens what is left. The LOQL parser's fuel
-- is sixteen times the tokens left and a rank of the nonterminal, the lexer's the length of the
-- text, and a loop's the tokens left. The loops of find run on one more than the ids: each step
-- goes nearer to a root. All else is structural. Integers of the code are Python's, without a
-- width. The clock of the gate counts milliseconds, so the retry wall of 30 s is 30000; ages and
-- reverts count whole seconds.
--
-- Assumptions. SHA-256 is a function of the hashed text. A text is a list of code points and case
-- means ASCII case; other letters have none. re.sub, with none for its exceptions, the digest, the
-- hash of an event and the matcher of the ingest actions are parameters, and a mask that raises
-- leaves the event as far as it came. A float is held by the text it is written as; str() of a
-- float in a LOQL search is a parameter. Of the characters of an indicator's token, a LOQL name
-- and a LOQL number only the ASCII ones are known. The interpreter's stack is unbounded: the code
-- turns a RecursionError, from a thousand signs before a number, into a LoqlError. float(),
-- re.search and the ipaddress package enter as the record Python, an argument of all that uses
-- them. The import of the CIM layer together with get_registry enters as its outcome, a registry
-- or none, which is fixed with the clock while one event is evaluated. The ipaddress package
-- enters the address ranges, the indicators and the suppressions as the records Parsers, Networks
-- and Addresses; a POST, an insert and a batch write enter as their outcomes.
--
-- Not modelled: YAML parsing, files, sockets, HTTP, SQL and the database, threads outside the
-- gate, and the parts that the manifest lists as not modelled.
pub mod Prelude
pub mod Text
pub mod Value
pub mod Cim
pub mod Detection
pub mod Streaming
pub mod Enrich
pub mod ThreatIntel
pub mod Triage
pub mod Correlation
pub mod SourceHealth
pub mod Response
pub mod Loql
pub mod KillChain
pub mod IngestActions
pub mod Samples
