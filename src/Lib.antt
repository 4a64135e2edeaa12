-- ===== src/Lib.antt =====
-- mames-pp calculates the difficulty and the performance of osu! scores in four modes. Its core logic
-- that is not a floating point formula is modelled here: how each mode completes a score of which only
-- some counts or an accuracy are given, the scores and the calculators that pass between the modes, the
-- gradual calculation, which goes through a map object by object, and containers, a grouping and a
-- sort that the difficulty calculation stands on.
--
-- Parts, and how they interact:
-- - Any.Settings: the settings of a calculation (any/difficulty/mod.rs), the map or the attributes it
--   starts from (util/map_or_attrs.rs), errors and modes (model/mode.rs). Paths are below src/.
-- - Taiko, Catch, Osu and Mania.Performance: `TaikoPerformance`, `CatchPerformance`, `OsuPerformance`
--   and `ManiaPerformance` with `generate_state` (performance/mod.rs of each mode), one function per loop, per match and
--   for the whole call, composed as in the code. `complete` is the call from the line that has the
--   attributes, and `generate_state` returns the calculator that it changes with the result.
-- - Osu, Taiko, Catch and Mania.ScoreState: the counts of a score of one mode, their sum and their
--   accuracy (osu, taiko, catch and mania/score_state.rs). Any.ScoreState: the counts of a score of any
--   mode and the conversions between them (any/score_state.rs).
-- - Any.Performance: `Performance`, which passes each value on to the calculator of its mode
--   (any/performance/mod.rs), over the Setters modules of the modes and Mania.Performance, which
--   model the methods of the calculators that set a value. Its children model `generate_state` of any
--   mode and the conversion of a calculator to another mode, with `try_from` of each.
-- - Osu, Taiko, Catch and Mania.Gradual: the iterators over the difficulty of a map after each of its
--   objects (difficulty/gradual.rs of each mode), with what they call of osu/object.rs,
--   osu/difficulty/mod.rs and taiko/object.rs. Any.Gradual: the one of any mode
--   (any/difficulty/gradual.rs). `next`, `nth` and `len` are functions of the state of the iterator, and
--   `of_map` is `new` from the line that has the map. Gradual.Nth compares `nth` with calls of `next`,
--   Gradual.Steps counts the calls of `next`, and Taiko.Gradual.Length compares them with `len`;
--   Prelude.Iterators has what they share.
-- - Catch.Counts, Catch.JuiceStream and Catch.Objects: the counts of osu!catch's objects
--   (catch/attributes.rs), the fruits and droplets of a slider (catch/object/juice_stream.rs) and of a map
--   (catch/convert.rs), which `new` of Catch.Gradual starts from.
-- - Mania.Objects: the objects of osu!mania and the calculation over them (mania/object.rs,
--   mania/difficulty/mod.rs and mania/difficulty/object.rs), which Mania.Gradual.Holds compares with the
--   iterator. Model.HitObject: the objects of a map (model/hit_object.rs).
-- - Model.Beatmap: `convert_mut` and `convert_ref` (model/beatmap/mod.rs), each with its own checks and
--   its own match, over the conversions of the objects, which are arguments. A panic is none.
-- - Util.Random: the generator of random words, integers and bits (util/random.rs), from a
--   seed that is a signed integer.
-- - Util.LimitedQueue: the ring of the last N elements (util/limited_queue.rs), as a list of N places.
-- - Util.StrainsVec: strains with runs of zeros stored as their length (util/strains_vec.rs). An entry
--   and a float are both their 64 bits.
-- - Util.IntervalGrouping: objects grouped by runs of almost equal intervals (util/interval_grouping.rs).
-- - Util.Sort: the heap sort that both sorting algorithms fall back on (util/sort/mod.rs).
-- - F64: floats as an interface, with the laws of IEEE 754 that proofs use as a record of hypotheses.
--   F64.Model fills it with decimal fractions, and the examples run on that. F64.Nearest: the loop with
--   which each mode looks for the accuracy nearest to one asked for.
-- - Prelude: names of the libraries, lists over native numbers, counted loops, and `u32` operations that
--   wrap as in a release build. Tests: the theorems at concrete inputs.
--
-- A Rust record is a record, `Option` is Option, and a method that changes its object takes and returns
-- it. The calculation of attributes from a map, the mods, floats and `no_slider_head_acc` are arguments.
-- `for a..=b` runs as often as its bounds say; `while let` in `into_vec` has fuel, one more than the
-- entries, and each round but the last takes an entry. The loop that extends a group of intervals has one
-- round for each object, and `down_heap` one more than the heap has entries, since the index grows. The
-- skills, the formulas and the arithmetic on positions and times of the gradual calculation are fields
-- of one record per mode. An index out of range is none there. `len` of osu!taiko wraps at 64 bits.
--
-- Not modelled: the formulas of difficulty and performance, which are floating point throughout, the
-- parsing of maps, which stands on rosu-map, the conversion of objects but for osu!catch's, mods, which
-- stand on rosu-mods, the gradual performance, and the sorting algorithms but for their heap sort.
-- Methods that limit a float to a range before they set it are left out. GameMode of rosu-map has the
-- four modes that the code names.
pub mod Prelude
pub mod F64
pub mod Any
pub mod Util
pub mod Taiko
pub mod Catch
pub mod Osu
pub mod Mania
pub mod Model
pub mod Tests
