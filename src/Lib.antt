-- ===== src/Lib.antt =====
-- Verification of BaseMaster's frontend: the parts of the database client, written in TypeScript,
-- that decide what runs against a database and what the interface keeps about it.
--
-- The parts, and the files that model them:
--   * Sql: the three scanners of SQL text. Sql/Segments and Sql/Cursor are `splitSqlSegments` and
--     `statementAtCursor` of src/lib/sql-statements.ts, which say what the editor runs.
--     Sql/Dangerous is the guard of src/lib/dangerous-query.ts against UPDATE and DELETE with no
--     WHERE, which has its own copy of the splitter. Sql/Literals and Sql/ReadOnly are
--     src/lib/sql-readonly.ts, the check of the queries that the AI agent runs with no approval.
--     Sql/Dangerous/Words and Sql/ReadOnly/Code say in plain words what their patterns find and what
--     is code in a text.
--   * FilterSql: src/lib/build-table-sql.ts, which writes the SELECT of a page of a table. Quote has
--     names and values, Render the filters and the statement.
--   * Tabs: Kind and Store are src/state/tabs.ts, Runtime is src/state/tab-state.ts, and Draft is
--     src/state/table-draft.ts. Closing a tab in the first removes its state in the second, so
--     `World` holds the state of both.
--   * SchemaCache: src/state/schema-cache.ts, what is known of each connection's schemas.
--   * Executor: src/state/executor.ts, the runner of a batch of jobs.
--   * Folders: Schemas and Tables are the two stores of src/state/folder-stores.ts.
--   * MultiSelect: src/state/sidebar-multi-select.ts, the selection of tables in the sidebar.
--   * Dialogs: the stores that ask the user and make a caller wait. App is src/state/app-dialog.ts,
--     Destructive src/state/destructive-confirm.ts, Approval src/state/ai-approval.ts, Prompt
--     src/state/dangerous-query.ts, which asks about what Sql/Dangerous reports.
--   * AutoMap: src/lib/auto-map.ts, which matches columns by their names: the edit distance, the
--     Scores of names and the Greedy mapping.
--   * Export: the CSV lines of src/lib/export.ts.
--   * Agent: the AI agent. Store is src/state/ai-agent.ts with the keys of models of
--     src/lib/ai/catalog.ts; the rest is src/lib/ai/runner.ts: History is `capHistory`, Messages the
--     translation to and from the SDK, Retry the loop around `generateText`, Ask `askAgent`, in two
--     steps between which any other operation of the store may come.
--   * Users: the editor of privileges of src/components/users-view.tsx: Grants has the sets and their
--     difference, Grants/Shown the lines of SHOW GRANTS and the statements for users, Grants/Editor
--     the dialog, and Grants/Applied runs its statements on a server that is a parameter.
--   * Structure: the drafts of src/components/table/structure-pane.tsx (kept by Tabs/Draft), when
--     they count as changed (Changed), the actions of ALTER TABLE (Alter) and their text (Render).
--   * TableView: src/components/table/table-view.tsx, the page of a table: the order of its columns
--     (Permutation, Moving, Saved), the values of its cells (Values), the edits in memory and their
--     handlers (Pending), undo and redo (Undo), and what is written to the database (Apply).
--   * TableClipboard: src/lib/table-clipboard.ts. DataImport: src/lib/data-import.ts.
--   * QueryRun: `runSql`, `handleRunStatement` and `handleStop` of
--     src/components/query/query-tab.tsx, which run what Sql/Cursor finds and ask what Sql/Dangerous
--     reports; QueryRun/Explain is what `handleExplain` sends and reads.
--   * Maintenance: src/lib/maintenance-sql.ts.
--   * SavedQueries: src/state/saved-queries.ts, beside the rows that the backend stores. The steps of
--     SavedQueries/Reach let a list arrive only while it is what the backend stores.
--   * Shortcuts: the catalog src/lib/shortcuts/registry.ts and the store src/state/shortcuts.ts; Match
--     is src/lib/shortcuts/match.ts.
--   * Types: the types of src/lib/types.ts that these share. Base: lists, texts and dictionaries.
--
-- How the code is modelled:
--   * A definition has the name of the source's function, operation or type in snake case, or the
--     comment above it names what it models. A store is a record of its fields, and an operation
--     is a function from the state to the state.
--   * SQL text is a list of UTF-16 code units. A scanner's nested loops are the modes of one pass:
--     each round consumes one character, so it ends on every text with no fuel, and an index is the
--     text that is left. The regular expressions are written out as functions on such texts.
--   * Ids, names and messages are strings, compared by equality alone. An object used as a map is a
--     function from keys to optional values; no key is the name of a member of `Object.prototype`.
--   * An asynchronous operation is a step with the backend's answer as an argument; where the code
--     tests the state before it asks (SchemaCache), the test is a step of its own, so an answer can
--     come in after any other change. New ids (`crypto.randomUUID`) are arguments.
--   * A job of Executor is what comes of it: its error, and whether the user cancelled meanwhile.
--   * The retries of Agent run on fuel 4, one more than `MAX_RETRIES`; Retry/Bounded proves that it is
--     enough. What each call of `generateText` does is a function from the number of the call.
--   * `undefined` at an index out of range is an argument (TableView). JSON values are their texts,
--     and `JSON.parse` and `JSON5.parse` are parameters, as are the readers of files (DataImport).
--   * The edits in memory change while a page is loaded (`if (!data) return` has no other case). The
--     backend answers a list of writes with a list of results, or throws; an effect of React is a
--     function, called behind the setters in the order in which the effects are declared (Undo). A
--     closure that reads state gets what it sees as an argument: the key handler of Undo sees the
--     stores of the first render, the buttons those of the last.
--   * A promise is a name, and resolving it adds its name and value to a list.
--   * The scores of AutoMap are exact fractions, with no rounding.
--   * A number that is only printed is its printed text.
--
-- Not modelled: the Rust side (drivers, tunnels, storage), the components that draw the interface,
-- the calls to the backend and to the taskbar, persistence of the stores, translations and themes,
-- and the other libraries of src/lib: the other formats of export, the handlers of shortcuts, the
-- AI agent's tools.
pub mod Base
pub mod Sql
pub mod Types
pub mod Tabs
pub mod SchemaCache
pub mod Executor
pub mod Folders
pub mod MultiSelect
pub mod FilterSql
pub mod Dialogs
pub mod AutoMap
pub mod Export
pub mod Agent
pub mod Users
pub mod Structure
pub mod TableView
pub mod Shortcuts
pub mod TableClipboard
pub mod DataImport
pub mod SavedQueries
pub mod QueryRun
pub mod Maintenance
