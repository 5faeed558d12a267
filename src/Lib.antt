-- ===== src/Lib.antt =====
-- The account service of ctech-account (api/): who may do what in an organization, which refresh token is
-- good, how an account is deleted, who is a verified person, how the key
-- that signs tokens is replaced, how much a plan allows, and which tax id is one.
--
-- Parts, and how they interact. The HTTP handlers of api/internal/handler call the services of
-- api/internal/domain; a service checks the caller and calls its repository, which reads and writes items
-- of a DynamoDB table, one transaction for each change of several items. The models keep that shape: an
-- operation is a function from the world of the store to an answer or an error and the next world
-- (Action), read through and changed by the calls of a contract of the store (Dynamo.Contract) alone.
--
--   Common                  names, tests on numbers and lists that the other files share
--   Action                  answers, errors, state, and guards; rules for invariants (Action.Keeps), and
--                           steps of a state machine (Action.Turns)
--   Dynamo.Contract         what DynamoDB promises: consistent reads of a key, reads of a key by api-commons'
--                           Base that may lag, lagging reads of an index,
--                           transactions that apply whole or not at all, also when the answer is lost
--   Dynamo.Memory           a store in memory with a schedule of faults, which meets the contract
--   Organization.Model      api/internal/domain/organization/model.go, kind.go, planlimit.go (the types)
--   Organization.Rows       the keys and the rows of its tables, the queries
--   Organization.Repository repository.go of that directory; Repository.Items has its write items
--   Organization.Counters   counters.go: the transactions that count spaces and people
--   Organization.Access     service.go: RoleOf, KindOf, MembershipOf, require, requireGrantableIn
--   Organization.Limits     planlimit.go: createGuarded, inviteGuarded, transferGuarded, afterPeopleLeft
--   Organization.Service    service.go: the workspaces and their members (change_role is SetRole)
--   Organization.Invitations service.go: Invite, Accept, ListInvitations, RevokeInvitation
--   Organization.Ladder, Ownership, Authority
--                           proofs on the ladder of the roles, on the owner of an organization, and on
--                           what a method changes for whom
--   Company.TaxId           api/internal/domain/company/taxid.go
--   PlanLimit.Quotas        api/internal/domain/planlimit/quotas.go, and the answer of billing in
--                           api/internal/billingclient/client.go that it reads; PlanLimit.Best: proofs
--   Session.Model, Rows, Items, Repository, Service
--                           api/internal/domain/session/model.go, repository.go, service.go
--                           (start is Create of the service), and BelongsToService of
--                           api/internal/scopes/scopes.go
--   Session.Rotation        proofs on the rotation of refresh tokens
--   Dynamo.Calls, Tables    the actions of a repository on the contract, and properties of the tables that
--                           they keep
--   Deletion.Model, Rows, Items, Repository
--                           api/internal/domain/deletion/model.go and repository.go
--   Deletion.Links, Opening, Saga, Worker
--                           service.go of that directory: the tokens, locks and e-mails; Request, Confirm
--                           and Cancel; Ack, reconcile and support's methods; ProcessDue and step
--   Deletion.Lifecycle      proofs on the states of a request; Deletion.Authority on the tokens,
--                           Deletion.Acks and Silent on the answers of the participants
--   Kyc.Model, Address, Rows, Items, Repository, Service
--                           api/internal/domain/kyc/model.go, address.go, phone.go, repository.go, service.go,
--                           and the fields of api/internal/domain/user/model.go that they use
--   Kyc.Standing, History, Locked
--                           proofs on the stages, the tax ids and the documents of the users
--   Keystore.Key, Env, Store, Rotator
--                           api/internal/keystore/key.go, ssm.go, rotator.go: the keys that sign tokens, the
--                           parameters that hold them, and one tick of their rotation; Keystore.Safety: proofs
--
-- A name of the source in camel case is here in snake case; a handler that branches in the middle has a
-- definition for each tail (rotate_found, rotate_live, replace for RotateClientToken), so that a proof
-- follows the source's early returns.
--
-- Bounds and fuel. The loops over lists are structural recursion. The guarded loops of planlimit.go run
-- guardAttempts = 3 times, as in the source, and end in ErrPlanBusy. No operation runs on other fuel. The
-- sums of check digits stay below 8 * 10^3, so no machine integer wraps.
--
-- What stands outside, as parameters with what the code relies on: the store, the clock, new ids, random
-- tokens and their hash, the text functions of Go's strings package and strconv.ParseInt,
-- billing's answers, the company grants and the account of an address. GetItem of api-commons' Base, by which organizations, memberships, users and
-- sessions are read, is a call of its own: nothing in the repository says that it reads consistently. A
-- theorem that needs it has the hypothesis IsCurrent of Dynamo.Contract and says so; the store in memory
-- can do either. A request runs from start to end without another request between its
-- calls; other writers show only as conditions that fail, calls that fail and indexes that lag. Items do
-- not expire by themselves: the removal of items at their time to live is not modelled. Logging, contexts,
-- marshaling, text of times and error messages are left out; an error is what errors.Is finds in it.
--
-- Not modelled: the handlers and the middleware, the queue of planlimit, the other domains (exports,
-- codes and consents of OAuth, API keys, second factors, support, users, audit), the scope registry,
-- and of the organizations Levels, SpaceCounts, SpaceUsage, ReconcileSpaceCounter of the
-- service and the Eraser; of identity verification Get and DocumentURLs, which only read; of the deletions the
-- Locker, Purger, Ownership and unlinker, which the service takes as parameters that leave the table of
-- the requests alone; of the signing keys InitFromLegacy, DeriveKID, the ticker of RunRotator, and the
-- writes of other instances during a tick. A PEM text stands for what its block holds.
pub mod Common
pub mod Action
pub mod Dynamo
pub mod Company
pub mod Organization
pub mod Session
pub mod Deletion
pub mod PlanLimit
pub mod Kyc
pub mod Keystore
