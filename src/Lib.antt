-- ===== src/Lib.antt =====
-- Verification of LiteAlignData, a program that produces test data: it reads an XML description of
-- interfaces, tables and columns, fills the rows of each table by the functions of its columns and
-- from seed files, and writes the tables to files or streams them at a rate.
--
-- The parts and where they stand. Columns call their functions for every row; a function draws
-- random numbers (Com/Random, Com/Clock), counts or takes from pools (Fun), and stores the result in
-- the column's value, which points into the memory of the table (Com/Value). The XML names are turned
-- into tags by searches in name tables (Com/Tags, Com/Types), and references to other tables are
-- parsed from texts (Com/Text). A table splits and fills its rows and sends them (Struct). The tree
-- of its columns is given its offsets by the parser (Sub/Parser), and the file formats walk it to
-- write rows to a file and to read them from one (File); the lines of such a file may be shuffled
-- (Sub/Shuffle). Clients that connect are handed to threads, which stream the tables (Stream).
--
--   Com/Random   class Random of src/com/AlignDataUtils.cc: the vector of seeds is a list.
--   Com/Clock    times, alignment and randnumer of src/com/AlignDataTypeDef.cc.
--   Com/Text     the text helpers there; a text is the list of its character codes.
--   Com/Tags     the enums and name tables of src/com/Comm.h, and FindRelativeTag.
--   Com/Types    the table nametype of src/com/Comm.cc, and what a type means in the header.
--   Com/Stack    the dynamic array and the stack of src/com/Comm.cc; malloc is an argument.
--   Com/Bytes    loads and stores on a memory of bytes, little-endian.
--   Com/Value    class autoValue: a pointer into the memory, or bytes of its own.
--   Fun/Base     CBaseFunc of src/fun/BaseFuncClass.cc: SetValue for numbers and texts.
--   Fun/Parameters the parameter loops of CBaseFunc::process and UniqueRandomFunc::process.
--   Fun/Acculate AcculateFunc::Calculate: the counter's fields are a record, a row is a step on it.
--   Fun/UniqueRandom UniqueRandomFunc::Calculate: its pools are lists with the back at the head.
--   Fun/Files    RandomFunc: the shuffled array of file indices and the windows of rows.
--   Struct/Rows  CTableObject of src/struct/TableObject.cc: the split over files, the seed file's copy.
--   Struct/Sending SendTableData: the turns of its loop are a list of clock readings and outcomes.
--   Struct/Schedule the rounds of StartProduceData of src/struct/AlignDataObject.cc, where tables wait
--                for those that they depend on, in file mode and in stream mode.
--   Struct/Percent initPercent there, and the choice of a child by ProducedRowDataPercent.
--   Struct/Objects the tree of src/struct/AlignDataObject.h: what the parser and the formats use.
--   Sub/Parser   parse_node of src/sub/parser/XmlParser.cc below a body, with its stack.
--   Sub/Shuffle  src/sub/shuffle/Shuffle.cc on the bytes of the file; pointers are positions.
--   File/Example src/file/Example/Example.cc: std::next is the visit of the rest of a list, and a file
--                is its bytes; a streamed table is handed to Struct/Sending.
--   Stream       CWorkThread and CThreadManager of src/stream; their interleavings are a relation.
--
-- Conventions. Numbers are natural numbers with the wrap-around of their width written out (u8, u16,
-- u32, u64), and a difference that may be negative has the power of two added first. A read or write
-- out of range, a null pointer and a division by zero are `none`. What rand() and the clock return,
-- and whether a write to a connection succeeds, are arguments.
--
-- Fuel. The copy of a seed file runs on one turn more than the table has rows, since every turn but the
-- first copies a row. to_string has the 20 digits that a 64-bit number can have. The rounds of
-- StartProduceData are as many as the tables have files in file mode and half as many, rounded up, in
-- stream mode, and the calls along the dependencies are as deep as the longest chain of them.
--
-- Not modelled: the walk of the XML parser over the DOM, the configuration and the logging, which
-- call Xerces and ACE; the event loops and the acceptors, which call libevent; the control files and
-- the draws of lines from files; the object tree but for the fields named above; the parameter loops
-- of the other column functions.
pub mod Prelude
pub mod Com
pub mod Fun
pub mod Struct
pub mod Sub
pub mod File
pub mod Stream
