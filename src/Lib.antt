-- ===== src/Lib.antt =====
-- Capbase, a crowdsourced registry of companies, investors and funds: what decides who sees what,
-- which source records are one entity, how two rows become one and apart again, and who may call
-- with a key. The program is a TypeScript monorepo: `packages/api` holds the
-- shared domain rules, `apps/api` serves reads and moderation, `apps/jobs` ingests public filings.
--
-- The parts modelled, with their files here:
--   * Visibility: packages/api/src/domain/visibility.ts, and the viewer's access of contributions.ts.
--     Visibility/Types and Visibility/Registry hold the vocabulary, the registries and the defaults;
--     Visibility/Validate the validators (`validateSectionPolicy`, `validateFieldPolicy`,
--     `validateWindowDays`) and `resolveGatePolicy`; Visibility/Viewer the per-viewer resolvers
--     (`sectionLimit`, `sectionView`, `fieldGate`, `fieldUnlockBy`, ...). Visibility/Sound,
--     Visibility/Overrides, Visibility/Access and Visibility/Hints prove, Visibility/Tests runs.
--   * Gate: apps/api/src/gate/gate.ts, which applies that policy to what a read returns. Gate/Masks
--     has `maskFields`, `gateFields` and `gateRowFields`, Gate/Rows the row filters and `listAccess`,
--     Gate/Directory `directoryFilters`; Gate/Leaks, Gate/RowLeaks and Gate/Filters prove.
--   * Companies: apps/jobs/src/ingest/company-matcher.ts. Companies/Matcher has `decideCompanyMatch`,
--     one function for each group of its rules, Companies/Names `companyIdentityKey`;
--     Companies/Justified and Companies/Conflicts prove.
--   * Csv: apps/jobs/src/util/csv.ts. Csv/Parser has the state of `createCsvParser`, one function for
--     each test of its loop, and `parseCsv`; Csv/Chunks, Csv/RoundTrip and Csv/Objects prove.
--   * Identifiers: packages/api/src/domain/identifiers.ts. Identifiers/Shapes has its regular
--     expressions, Identifiers/Normalize `isValidLei` and `normalizeIdentifier`; Identifiers/Characters,
--     Settled, Idempotent, Numbers and Checksum prove.
--   * People: apps/jobs/src/ingest/person-matcher.ts, `normalizePersonName` of
--     packages/api/src/domain/person.ts and `kebab` of apps/jobs/src/util/slug.ts. People/Names has the
--     keys, People/Slugs `uniquePersonSlug`, People/Assign `assignPeople`, People/Variants
--     `variantPairs`; People/Safe, Outcomes, Accounted, Grouped, Endings and Proposed prove.
--   * Rounds: apps/jobs/src/ingest/round-dedup.ts. Rounds/Dedup has `findNearDuplicate` and
--     `pairNearDuplicates`, whose map is the list of its chosen pairs; Rounds/Nearest, Pairing, Chosen
--     and Indices prove.
--   * Merges: apps/jobs/src/ingest/merge-detector.ts. Merges/Detector has `sweep` and `byCountry`;
--     Merges/Proposals, Scoped and Shared prove.
--   * Mfa: totp.ts, policy.ts and recovery-codes.ts of apps/api/src/auth/mfa, and
--     `canViewCompanyHistory` of packages/api/src/domain/auth.ts (Mfa/Recovery). Mfa/Policy says which
--     roles need a factor,
--     Mfa/Base32 has `base32Encode` and `base32Decode`, Mfa/Totp `totpAt` and `verifyTotp`;
--     Mfa/RoundTrip and Replay prove.
--   * Settings: apps/api/src/gate/gate-policy.service.ts. Settings/Changes has the handlers that write
--     the stored policy, and its load; Settings/Stored proves.
--   * Geography: packages/api/src/domain/geography.ts. Geography/Countries has the codes and
--     `normalizeCountryCode`; Geography/Canonical proves.
--   * ApiKeys: apps/api/src/api-keys/api-keys.service.ts with packages/api/src/domain/api-keys.ts.
--     ApiKeys/Addresses has `normalizeIp`, `parseCidr` and `ipAllowed`, ApiKeys/Store the rows and the
--     queries, ApiKeys/Service `mint`, `create`, `revoke` and `revokeForRole`, ApiKeys/Authenticate
--     `authenticate`, ApiKeys/Listing `list`; Ranges, Fresh, Revoked, Ended, Bounded and Used prove.
--   * MergeService: apps/api/src/admin/merge/merge.service.ts, over the tables that it writes.
--     MergeService/Rows has the queries, Store the rows and the constants, Parts the steps on one kind
--     of row, Merging, Unmerging and Queue the calls, Pages `listCandidates`. Tables, Moves, Children,
--     Reversal, Restoring and Undone prove the round trip; Gone, Vacated, Apart and Unique what a
--     merge leaves, Refused what a reversal must wait for, Paged the pages; Candidates, Counts and
--     Counted what holds over any calls.
--
-- How the code is read. Texts are native strings where the code only compares them. A JavaScript
-- object or `Map` with text keys is a table in insertion order, a `Set` a list in insertion order
-- (Base/Lists). A stored column of type `unknown` is a `Raw` value. An error message is a
-- constructor that names what it says. Where the code looks into a text, it is a list of UTF-16 code
-- units (Base/Texts); the case of a text that is not plain ASCII is looked up in tables, which are an
-- argument. A loop is a recursion on the list that it walks, with one
-- function for a round, so no fuel is needed but for the search of a free slug (fuel one more
-- than the slugs taken, proved enough), for decimal digits and for the digits of one byte in base32
-- (three, of at most twelve bits).
--
-- Not modelled: the database (Prisma), HTTP controllers, the web pages, mail, and the network
-- clients of the sources. What the code relies on of them is an argument with named hypotheses.
-- Calls of a service run one after another: two that interleave are not modelled.
pub mod ApiKeys
pub mod Base
pub mod Companies
pub mod Csv
pub mod Gate
pub mod Geography
pub mod Identifiers
pub mod MergeService
pub mod Merges
pub mod Mfa
pub mod People
pub mod Rounds
pub mod Settings
pub mod Visibility
