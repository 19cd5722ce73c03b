-- ===== src/Lib.antt =====
-- Verification library of tosdk, the TypeScript SDK of the TOS network.
--
-- The parts of the program that are modelled, each with its files here:
--   src/utils/cursor.ts, a reader and writer on a byte array with a limit on re-reads: Cursor. A
--     method is a function on the record Cursor in a monad of state and exceptions (M), so that a
--     method that throws leaves the state it had reached. The children: Steps (every method as a
--     step, and runs of steps), Returns (what calls return), Bounds, ReadLimit, RoundTrip.
--   src/utils/data/*.ts, sizes, padding, trimming, slicing and joining: Data, with Pad,
--     Trim, Slice, Join.
--   src/utils/encoding/{toHex,toBytes,fromHex}.ts: Encoding/Hex, with Bytes, Numbers,
--     Bools.
--   src/utils/encoding/toRlp.ts: Encoding/Rlp. getEncodable gives a size and a closure that writes
--     into the cursor, as in the source. Layout says the RLP format without cursors; Writes, Pushes
--     and Closures are the lemmas on what the closures write; Correct joins the two.
--   src/utils/lru.ts: Lru, a Map as the list of its entries, oldest first. Entries has the lemmas on
--     such lists, Policy the promises of the map, Memo what a function with a cache needs of it.
--   src/utils/address/*.ts: Address. The caches are variables of their modules, so each function
--     takes them and gives them back. Keys, Cached and Canonical follow the caches.
--   src/utils/transaction/{assertTransaction,getTransactionType,serializeTransaction}.ts and the
--     types of a native transaction: Transaction, with Checks, Quantities and Fields; FieldList
--     says the place of each field, and has the proofs. The checks ask
--     isAddress, and so pass its cache on.
--   src/utils/abi/encodeAbiParameters.ts: Abi has the encoders of elementary types and encodeParams,
--     Abi/Prepare the recursion over arrays and tuples; Layout, Words, Sizes and Fuel the proofs.
--   src/surfaces/agentDiscovery.ts and src/types/agent.ts: Surfaces/Discovery, with the types in
--     Surfaces/Types. Failures says why a provider is not trusted or not preferred, Ranking has the
--     policies and the order, Diagnosis the choice among ranked providers, Search the calls of the
--     client; Keys, Trust and Selection the proofs.
--   src/surfaces/agentRuntime.ts, src/types/protocol.ts and src/types/settlement.ts: Surfaces/Runtime.
--     Types, Trust (trust, preferences, order, diagnostics), Normalize and Lookup are the code;
--     Selection, Join and Masks the proofs. Surfaces/Preferences is what the two files share,
--     Surfaces/Client the methods of a client that they call.
--   src/transports/webSocket.ts: Transports/WebSocket. State is the data, Messages what a message
--     does, Steps the events and calls as steps; Ids and Reachable are the invariant, Ledger,
--     Balance and Runs the account of what becomes of each call.
--   src/transports/http.ts: Transports/Http. Transports/Url is resolveWebSocketUrl of webSocket.ts.
--   src/clients/createPublicClient.ts and the parameters of its methods in src/types/{client,lease,
--     privacy,disclosure}.ts: Clients. Rpc has the state of a method and what all methods share, Types
--     the records, Serialize and Filters the parameters that are sent, Parse the answers that are
--     read; Public has the methods that send one request (Accounts, Blocks, Calls, Privacy,
--     Registries, Node, PackageCalls), Watch the subscriptions, Receipt waitForTransactionReceipt.
--     Filters/Ranges and Receipt/Deadline are proofs, Contracts the lemmas on what a method keeps of
--     the state and what it answers.
--   src/utils/contract/encodePackage{Call,Deploy}Data.ts and src/utils/hash/keccak256.ts:
--     Clients/Packages.
--   src/clients/createWalletClient.ts: Clients/Wallet, from buildTransaction to sendTransaction; its
--     children Actions and Requests are the other methods, Contracts, Building, Signing, Sending and
--     Plain the proofs.
--   src/accounts/utils/nativeSigner.ts: Accounts. SignerType, Signatures (the forms of a signature),
--     Elgamal (signatures over ristretto255) and Signer are the code; Halves, RoundTrip and
--     Elgamal/Verified the proofs.
-- Prelude has the names, list lemmas and results that these share, Strings the functions of the
-- language on strings, Arrays those on arrays, Sort the stable sort by a comparator, Json the values
-- that come out of JSON. A transaction is serialized through Address, Encoding/Hex and Encoding/Rlp,
-- and that through Cursor and Data. A client sends through the request of a transport, which is a
-- parameter; http_request of Transports/Http is one. A wallet asks its public client and serializes
-- with Transaction.
--
-- Numbers of the source that are sizes, offsets or bytes are natural numbers, others are integers
-- (ℤ); a number that is no integer is not modelled. A string is the list of its UTF-16 code units,
-- and toLowerCase changes ASCII letters only, which is all that an address has. An exception keeps
-- its class. Loops are structural, but for the digits of a number (to_base16, decimal_fuel), which
-- take the number as fuel: each round divides by the radix, so that it is enough; and for
-- prepareParam, which recurses on the type of a parameter and has fuel enough in its size (Abi/Fuel).
-- The wait for a receipt has fuel for its rounds, of which one more than the timeout has milliseconds
-- is enough (Receipt/Deadline). The draw of a scalar has fuel for its draws, which the source does not
-- bound: the random bytes may give 0 again and again.
--
-- An async function of the surfaces takes the world outside and gives its result or exception and the
-- world after it; the methods of a client, JSON.parse and localeCompare are parameters. Array.sort is
-- the stable sort, which the language promises for a comparator that is consistent (IsComparator);
-- that localeCompare is one is a named hypothesis. A web socket is the list of its events: its
-- handlers run to the end before the next event, and what a promise resumes runs with its event.
--
-- An answer of a node is a value of JSON, which the code takes at the type it names without a look;
-- a field that is passed on unread stays such a value. The requests that buildTransaction runs side by
-- side run one behind the other, all of them also when one fails. The curves, keccak256 and sha3_512,
-- the random bytes, fetch, JSON.stringify, the clock and the timer are parameters. ristretto255 has
-- the laws of a group over a field (IsGroup) as named hypotheses.
--
-- Not modelled: the accounts over nativeSigner.ts, mnemonics and HD keys, which are records of calls
-- of third-party code; the clients of the providers, the other surfaces, the schema reports, units and
-- typed data, which are pure and may follow; createTransport; texts of errors, but those of the
-- diagnostics.
pub mod Prelude
pub mod Strings
pub mod Arrays
pub mod Json
pub mod Sort
pub mod Cursor
pub mod Data
pub mod Encoding
pub mod Lru
pub mod Address
pub mod Transaction
pub mod Abi
pub mod Surfaces
pub mod Transports
pub mod Clients
pub mod Accounts
