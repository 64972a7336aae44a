-- ===== src/Lib.antt =====
-- go-yaml: what its code promises, for the parts that these files model.
--
-- A document passes through internal/scanner, which cuts its text into tokens (token/token.go);
-- parser/group gathers the tokens, the descent in parser/ builds the tree of ast/ from them, and
-- codec/ decodes the tree into Go values and encodes them back; printer/ and transform/ write tokens
-- and trees. Two parts decide what a document means without any other part: the resolution of a plain
-- scalar's text to a type, and the test whether a mapping has used a key before. internal/yamlpath reads
-- paths that address nodes of the tree.
--
-- Token is token/token.go and token/lines.go.
--   Token.Kind       `Type`, `Indicator`, `CharacterType` and the functions on a type alone.
--   Token.Position   `Position`, whose offset and indent share one word of 64 bits.
--   Token.Keyword    `Schema`, the keyword tables that `init` fills, the length gate
--                    `isReservedLength`, `ParseBool`.
--   Token.Number     `shapeOfNumber` (Core), `shapeOfNumber11` and `shapeOfSexagesimal` (Legacy), the
--                    digit loops (Digits). A cursor into the text is the rest of the text.
--   Token.Number.Value `ParseWholeNumber`, `ParseInteger`, `ParseBigInteger`; Exact relates them.
--   Token.KeyName    the names of integer keys, `CanonicalBase64`, `withDecimalPoint`: token/keyname.go.
--   Token.Scalar     `ScalarType`, `IntegerBase`, `FloatBase`, and the encoder's `isNumber`.
--   Token.Spans      the word `spans` of a token, field by field.
--   Token.Origin     `MeasureOrigin`, `trailingRun`, `extentOf`.
--   Token.Make       `Token`, `Assemble`, `Make` and the functions named for a type.
--   Token.Lookback   `Lookback` of token/lines.go; History has what it keeps as a function of all tokens
--                    read so far, Marks the marks as the tokens in front of each say them.
-- Key is parser/key.
--   Key.Set          `Set` of parser/key/set.go: `Base`, `Record`, `Holds`, `Close`, `Reset`, with the
--                    scan by filters and the index that a mapping of more than 64 keys moves to. A set
--                    is a record passed along; its Go map is the function that a lookup is.
--   Key.Set.Spec     what the set promises: a stack of mappings, each the list of its keys.
--   Key.Set.State    how a set represents that stack; Refine, Close and Open follow it through the
--                    operations; Trace runs whole sequences of operations.
--   Key.Ledger       `Ledger` of parser/key/ledger.go, which records keys in the set and notes the repeats
--                    on the mappings; Notes has the notes against the stack.
-- Path is internal/yamlpath/path.go.
--   Path.Step        the steps of a path, `PathBuilder`, what a path prints as.
--   Path.Parse       `PathString` and its parsers, cursor by cursor; Printable, Digits, StepRead and RoundTrip are about
--                    printed paths, Total about the loop's end, Escapes and Quoted about quotes in keys,
--                    Brackets about brackets in them.
-- Arena is parser/arena/run.go.
--   Arena            `Run` and its chunks; Live follows the cells that are still read through `Release`.
-- Parser is parser, as far as it stands alone.
--   Parser.Version   the version in scope, in version.go, and the YAML directive of directives.go. The tokens
--                    are a list by sequence, `none` for one that reads as nil; Retype has what stands on the tape, a
--                    comment behind a block scalar's header included, and Scope the directive's scope.
-- TokenArena is internal/tokenarena/tokenarena.go, which the parser takes its tokens from.
--   TokenArena       `TokenArena` with its chunks (Chunks), `Add`, `SetTail` and the pins (Tape), `Save`,
--                    `Release`, `Recycle` and the reading of tokens (Saves). Chunks are shared by pointer:
--                    a heap maps a chunk's number to it, and the lists and the index hold numbers.
--   TokenArena.Sound what holds between the calls; Add, Free, Sweep and SaveSound follow it through them,
--                    Kept and Saving follow a saved token, Order the order of the live list; Trace and
--                    Reclaim have whole sequences of calls.
-- Scanner is internal/scanner, as far as it stands alone.
--   Scanner.Escape   the escapes of double-quoted scalars, in string.go; EscapeHex and EscapeRefusal are about them.
--   Scanner.Swar     the masks on words of eight bytes, in swar/swar.go. A word is a number below 2^64, its bytes
--                    stand lowest first; Lanes and Masks take it lane by lane, First reads a mask as the callers
--                    do, Exact and Stops are about the two kinds of masks.
--   Scanner.Printable  firstUnprintable of printable.go, with utf8.DecodeRuneInString. An index goes with the text
--                    from there, and the loops run on fuel, one round more than the text has bytes, which is enough
--                    since a round reads a byte at least; a loop out of fuel has an answer of its own. PrintableTail, PrintableWords and PrintableLoop are about it.
-- Base holds lists, byte strings, the decimal digits of a number, `big.Int` and tests on native numbers.
--
-- A string is the list of its bytes, a machine integer a natural number below its range with the
-- wrap-around written out. Besides those of Scanner.Printable, and the count of the zeros below a word's
-- lowest one, with its 64 bits, three loops run on fuel: the one over the groups of a number in base 60,
-- where each round takes a colon, the one of `PathString`, where each round moves the cursor, both with
-- one more than the length of the text, and the printing of a number, where each round leaves a tenth of
-- it, with one more than the number. `Option` results of the key set are
-- `none` where the Go code would panic.
--
-- Not modelled: the scanner's state machine and its tables for tags, the error that names a character a
-- stream may not hold, the grouping and the descent of the parser, the tree, the
-- codec and the printers; timestamps, whose test is the standard library's `time.Parse`; the values and
-- names of floats, which `strconv` and `math/big` read and write.
pub mod Base
pub mod Token
pub mod Key
pub mod Parser
pub mod Path
pub mod Arena
pub mod TokenArena
pub mod Scanner
