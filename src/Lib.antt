-- ===== src/Lib.antt =====
-- A verification library for pfuzzer, a coverage-guided fuzzer that descends from libFuzzer.
--
-- The parts of the program, and the files that model them:
-- * FuzzerRandom.h, the pseudo-random generator that every mutator draws from: Random.
-- * FuzzerDictionary.h, words of at most 64 bytes, dictionary entries and dictionaries: Dictionary.
-- * FuzzerTracePC.h, the tables of recent comparisons and of strings searched for: Trace/Recent;
--   the buckets of counters: Trace/Counters.
-- * FuzzerUtil.cpp, `ToASCII`, `IsASCII` and `SimpleFastHash`: Util; `ParseOneDictionaryEntry` and
--   `PrintASCII`: Util/Entries; `ParseDictionaryFile`: Util/Files; `Base64`: Base64.
-- * FuzzerDriver.cpp, the parser of flags: Flags.
-- * FuzzerCorpus.h, `InputInfo`, `InputCorpus` and its rare features: Corpus; `AddFeature` and its
--   like: Corpus/Features; `AddToCorpus` and `Replace`: Corpus/Units.
-- * FuzzerDataFlowTrace.h and FuzzerDataFlowTrace.cpp, `BlockCoverage`: DataFlow;
--   `DataFlowTrace`: DataFlow/Focus.
-- * FuzzerCrossOver.cpp, `MutationDispatcher::CrossOver`: CrossOver.
-- * FuzzerMutate.h and FuzzerMutate.cpp, `MutationDispatcher`: Mutate. Its children are Bytes
--   (`Mutate_EraseBytes`, `Mutate_InsertByte`, `Mutate_InsertRepeatedBytes`, `Mutate_ChangeByte`,
--   `Mutate_ChangeBit`), Shuffle (`Mutate_ShuffleBytes`), Parts (`CopyPartOf`, `InsertPartOf`,
--   `Mutate_CopyPart`), Ascii and Binary (the integers in an input), Words
--   (`ApplyDictionaryEntry`), Compares (`MakeDictionaryEntryFromCMP`), Cross
--   (`Mutate_CrossOver`), State (the dispatcher's fields, the sequence of used entries and
--   `RecordSuccessfulMutationSequence`), Dispatch (the mutators that read the state, the list of
--   mutators), Dispatch/Impl (`Mutate`, `DefaultMutate`, `MutateImpl`) and Dispatch/Mask
--   (`MutateWithMask`). Edit and Frame hold what the mutators share.
-- * FuzzerCommand.h, `Command`: Command.
-- * FuzzerMerge.h and FuzzerMerge.cpp: Merge (`Merger::Merge`), Merge/Cover (`SetCoverMerge`),
--   Merge/Control (`Merger::Parse`, `WriteNewControlFile`, `CrashResistantMergeInternalStep`) and
--   Merge/Outer (`CrashResistantMerge`). Streams has what these use of C++ streams.
-- * FuzzerFork.h, `GlobalCorpusInfo`, and the loop of FuzzerFork.cpp that adds an input: Global.
-- Base has the lists, tests, byte arrays, sets and computations that all of these use; Laws and
-- the like hold the theorems of the module they stand under, and Tests has examples.
--
-- How code corresponds to definitions. A function of the source has a definition with its name in
-- lower case. A computation (Base/Comp) takes a state and returns `none` where the C++ has
-- undefined behaviour or stops: a failed assertion, an access outside an array, a difference of
-- sizes below zero, a division by zero. So a theorem that says a computation does not fault says
-- that assertions hold and accesses are inside the arrays. The state is the generator's for single
-- mutators, and the whole `Dispatcher` where dictionaries are used. `Data` is the list of the bytes
-- of the array that the pointer leads to, of which the first `Size` are the input and the first
-- `MaxSize` may be written; a mutator returns the array afterwards and the new size. A
-- `DictionaryEntry *` is a reference into one of the dispatcher's three stores, so that entries
-- which are overwritten are seen through references taken before.
--
-- Numbers. Sizes and offsets are plain numbers, and arrays are shorter than 2^63 bytes where a sum
-- of sizes could wrap; the integers that mutators change, counters and hashes wrap at their width.
-- The machine stores the low byte first. `double` appears only in `SkewTowardsLast`, where the
-- rounded square root is the exact one, which it is for arguments below 2^52, and in
-- `FunctionWeights`, where a weight is kept as an exact fraction.
--
-- Loops. The crossover's loop runs on fuel, 2 * (Size1 + Size2) + 2 rounds: every second round
-- copies a byte. The loop of `SetCoverMerge` has one round more than there are files: every round
-- takes one away. The loop of `AddRareFeature` has as many rounds as there are rare features, of
-- which every round takes one away. The rounds of `MutateImpl` are the 100 of the source, and those
-- of `std::set_difference` as many as both ranges have elements. The other loops follow a list or a
-- number.
--
-- Parameters. The custom mutator and the custom crossover are functions that a fuzz target may
-- provide; their contract is that they keep to the arrays they are given, and that a crossover
-- returns no more than it has room for. They are modelled as functions of their arguments: a
-- custom mutator that calls back into the dispatcher is not covered. The draws of `std::shuffle`
-- and the order in which `std::sort` leaves equal elements are open in C++; the definitions fix
-- one choice. An inner process of a merge is a function of its number, its command and the control
-- file; for the theorems it is the model of the inner step, whose target may crash on any input. The
-- table of flags, which FuzzerFlags.def makes, and the random choice of a function by its weight are
-- arguments.
--
-- Not modelled: the energies of inputs, which are `double`, and the choice of inputs by them
-- (FuzzerCorpus.h), the rest of the fork mode (FuzzerFork.h, FuzzerFork.cpp), coverage collection
-- (FuzzerTracePC.cpp), what FuzzerDriver.cpp does after the flags are parsed, `CollectDataFlow`, and
-- SHA-1. Out of scope are files, processes, signals, threads, printing, and the code for other
-- operating systems.
pub mod Base
pub mod Random
pub mod Dictionary
pub mod CrossOver
pub mod Base64
pub mod Command
pub mod Merge
pub mod Global
pub mod Corpus
pub mod Mutate
pub mod Util
pub mod Streams
pub mod Flags
pub mod DataFlow
pub mod Trace
pub mod Tests
