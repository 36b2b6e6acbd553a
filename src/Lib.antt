-- ===== src/Lib.antt =====
-- shinran: a text expander for Linux. What is typed is looked up among the triggers and regular
-- expressions of the active profile, the template that is found is rendered, and the text is
-- committed by an input method.
--
-- The program's parts, how they interact, and the files that model them:
--
-- - crates/shinran_types: the data that the crates share. Types.antt has its types, with the
--   source's constructors and fields. Types/Params.antt reads and writes parameters.
-- - crates/shinran_render: renders a template. Render.antt has the types of src/lib.rs;
--   Render/Names.antt and Render/Util.antt are src/renderer/util.rs; Render/Resolve.antt is
--   src/renderer/resolve.rs, with its proofs below it; Render/Template.antt and Render/Casing.antt
--   are `render_template` of src/renderer/mod.rs and the extension echo. The `&self` of the renderer
--   is the interface `Extensions` and the regex `VarRegex`; the scope is threaded as a map. The
--   extensions of src/extension/ are below Render/Extension.antt: Shell.antt with exec_util.rs,
--   Script.antt, Date.antt, and Values.antt for the others; a process, the clock and the target
--   system are their parameters. The interface says of date, shell and script that they can panic.
-- - crates/shinran_backend: Backend/ProfileCache.antt is src/profile_cache.rs,
--   Backend/CasingStyle.antt and Backend/Adapter.antt are src/render.rs with `check_trigger` of
--   src/lib.rs and src/cursor.rs, Backend/Regex.antt is src/regex.rs. `check_trigger` asks the caches
--   first, then the regular expressions, and hands the match to the renderer. Backend/Startup.antt is
--   src/config.rs, with the archive as a parameter; Backend/Paths.antt is src/path.rs with
--   `get_path_override` and src/builtin/, Backend/Creation.antt is `Backend::new` with `ProfileCache::new`,
--   which panics where the set of regular expressions cannot be built. Backend/Hints.antt is about src/cursor.rs.
-- - crates/ibus_utils and crates/shinran_ibus: Ibus/LookupTable.antt is the table of candidates,
--   Ibus/Address.antt is src/address.rs of ibus_utils, Ibus/Engine.antt the engine. Each handler is a function from the engine's state to an `Outcome`,
--   which says how the handler ends; signals that were emitted are kept in the state. The engine
--   takes the back end as the interface `Host`.
-- - crates/shinran_wayland: Wayland/Context.antt is src/input_context.rs, Wayland/Seat.antt the events
--   of a seat in src/main.rs, as a step function on what an event can change, and
--   Wayland/Registry.antt the `State` with its seats. A `Seat` has the context, whether the client
--   runs, and the timers that the event loop has; requests to the compositor are kept in the context.
-- - crates/shinran_config: Config/Parsed.antt is src/config/parse/mod.rs with `inherit`,
--   Config/Profile.antt and Config/Settings.antt are src/config/resolve.rs, Config/Selection.antt is
--   src/config/store.rs; Config/Matches.antt is src/matches/store.rs with src/matches/group/mod.rs.
--   Config/Yaml.antt and the files below it are src/matches/group/loader/: values, matches, and the
--   reading of a file, which is the `Reader` of the match store.
--   Config/Loading.antt is `load` of src/lib.rs, with the profiles that are read from a directory,
--   src/config/parse/yaml.rs after serde, and src/config/path.rs.
--   The matches that the query collects are what the caches of the back end are made from.
--
-- Pipeline.antt puts them together, from a match file to the text that the Wayland client commits or the panic
-- of the input method.
--
-- A hash map is an association list with one entry for each key, in an order that stands for the
-- order of iteration; a hash set is a list. A text is the list of its Unicode scalar values. A `u32`
-- is a number below 2 ^ 32 and wraps, as in a release build. Panics are values of the model.
--
-- Fuel. `resolve_dependencies` recurses on the number of nodes, and `query_matches_for_paths` on
-- the number of files and one, which is always enough. Loading match files has as fuel how deep
-- imports are nested: one more than the number of files that can be read is enough. The recursion
-- of `render_template` through nested matches has no bound in the program; it is on fuel, and
-- `out_of_fuel` is no result of the program.
--
-- Not modelled: what the crates regex, unicode_segmentation, xkeysym, nucleo_matcher and zbus do
-- (parameters, with what is relied on as laws of the interfaces), nor serde_yaml_ng, chrono, xkbcommon
-- and calloop; processes, the clock and the file system (parameters); logging, serialisation,
-- `populate_default_config`, the D-Bus values of ibus_utils/src/text.rs, the start of the programs, and
-- the built-in matches that are commented out.
pub mod Prelude
pub mod Types
pub mod Render
pub mod Ibus
pub mod Backend
pub mod Config
pub mod Wayland
pub mod Pipeline
