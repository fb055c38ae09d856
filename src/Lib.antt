-- ===== src/Lib.antt =====
-- The comparison of two versions of a Soroban contract, as soroban-upgrade-safeguard does it.
--
-- The program reads the interface of the deployed contract and of its upgrade, compares them, and
-- reports findings: each has a category, a severity, the compatibility axes that it concerns, and
-- the type or function that it is about.
--
-- Base holds what the other modules share: tests on texts and numbers, lists, the format of
-- messages, predicates on lists, and sets of names with the pigeonhole principle.
--
-- Spec models src/spec.rs: ContractSpec is five dictionaries, and from_entries fills them. The
-- types of a contract's interface come from the XDR library; Spec has them with the constructors
-- and fields that the program matches on, the types without a payload grouped as Primitive. A
-- dictionary, a HashMap of the program, is an association list in its order of iteration; the
-- theorems hold for every such order. Names are texts: one that is not UTF-8 does not occur.
--
-- Category models src/category.rs: the categories, their names, their default severities, and the
-- lookup by name. The guidance texts are left out.
--
-- Mapper models src/mapper.rs: how a type is printed, and in Mapper/Graph the reverse graph of
-- the types that embed each other, whose edges Mapper/Graph/Embeds compares with the members of
-- each type. A HashSet is a list without duplicates.
--
-- Diff models src/diff.rs. Diff has Finding and the axes; Detail the messages about a changed type
-- and the findings about maps; Functions, Structs, Enums, Unions and ErrorEnums the five passes
-- over the declarations; Kinds the pass over types that became another kind of type; Cascade the
-- pass over the types that embed a broken one; pushed_axes the axes of a finding; and Compare the
-- order of the passes. A pass that pushes onto the report is a function that returns what it pushes.
-- Below each of them stand its theorems: Silence and Layout say when a comparison reports nothing,
-- Cascade/Rounds, Cascade/Reachable and Cascade/Embedded what the cascade reports, Kinds/Laws,
-- Kinds/Retracted and Compare/Survival which findings stay in the report, and Severities with
-- Compare/Standard how severe they are.
--
-- Below Diff/Axes, References says which types the search behind the axes finds, and Uses when a
-- finding about a type concerns the callers or the readers of events. Suppression
-- models the rule identifiers of src/suppression.rs, and Report the record of a reported finding of
-- src/report.rs, which the budgets read.
--
-- Budget models src/budget.rs: Entries the validation of the configured entries, Evaluate the
-- claims of the scopes on the findings and the violations, where Evaluate/Precedence counts each
-- entry by itself and Evaluate/Violations says which scope a finding counts towards. The i64 limit of an entry is an integer,
-- and a usize is a number.
--
-- ContractMigration models src/contract_migration.rs: Claims matches the claims of a migration
-- with the findings, Cascades lets a dependent inherit the coverage of its root, and Audit puts
-- them together with their diagnostics. Coverage and Inheritance take the loops apart, one finding
-- at a time; Ownership says when a claim holds of a finding, Owned and Sources relate the code to
-- it, Specified says which findings are covered and by which migration, and Attested in whose name.
--
-- CallAbi models src/call_abi.rs: Flow the walk over a pair of types with its breaks, Directions
-- the two directions over the functions. Accepted says which values a consumer accepts, without
-- paths and pairs in progress; its children relate the walk to it, and Served does so for whole
-- contracts. The functions on the walk return an Option, none when its rounds run out.
--
-- Lineage models src/lineage.rs: the ledger of versions as a record that record_version and
-- retire_version take and return, with the outcome; Integrity, Recorded, Retired and Newest have
-- the theorems. A u64 is a number, and the sum that gives the next order saturates at 2^64 - 1.
--
-- The while loop of the cascade runs on rounds: one for each broken type and one for each pair of
-- a struct or union and a broken type, since a pair enters the queue once. The search for the uses
-- of a type runs on one round for each struct and union and one more, since each round visits a
-- new name. The walk of the call ABI runs on one round for each pair of a struct or union of
-- either side and one more, since each round puts a new pair in progress. decimal, which prints a
-- number, recurses on accessibility.
--
-- Not modelled: env metadata and host imports in src/diff.rs, which need the registry of host
-- functions; the matching of suppression rules, which needs a hash function; the verdict of a
-- report; the comparison of a candidate with the ledger, which parses binaries; and the rest of the
-- program: reading contracts from files and networks, rendering, policies, and the command line.
pub mod Base
pub mod Spec
pub mod Category
pub mod Mapper
pub mod Diff
pub mod Suppression
pub mod ContractMigration
pub mod Lineage
pub mod Report
pub mod Budget
pub mod CallAbi
